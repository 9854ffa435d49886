-- ===== src/Conditioning/Invocation.antt =====
-- backends/conditioning/invocation.py. An invocation changes as it is asked: it is passed on beside each answer.
-- A function that transforms a result may raise. A result is asked for without a timeout.
use stability_toys.Prelude.{Bool, true, false, Option, none, some, if◌then◌else◌}
use stability_toys.Prelude.Effects.{Result, ok, raised}
use stability_toys.Prelude.Outcome.{◌>>=◌}

-- `waiting` is an invocation of another kind that has not been asked: what its result comes to, and the
-- exception of a result that is cancelled. `fallback` is a `NativeFallbackInvocation`: its primary, what
-- the native service answers with once it is invoked, whether it was, and `_cancelled`. `unbacked` is
-- one whose native service raises when it is invoked.
pub data Invocation (A X : Type 0) : Type 0 where
  completed : Result X A → Invocation A X
  waiting : Result X A → X → Invocation A X
  transforming : Invocation A X → (A → Result X A) → Invocation A X
  fallback : Invocation A X → Invocation A X → Bool → Bool → Invocation A X
  unbacked : Invocation A X → X → Bool → Invocation A X

module _ {A X : Type 0} where
  -- `result` of a `NativeFallbackInvocation` that has not fallen back
  unfoldable pub fall_back :
      Result X A × Invocation A X
      → Result X A × Invocation A X
      → Invocation A X
      → Bool
      → Result X A × Invocation A X
  fall_back (ok a, p) native n c = (ok a, fallback p n false c)
  fall_back (raised e, p) (r, n') n true = (raised e, fallback p n false true)
  fall_back (raised e, p) (r, n') n false = (r, fallback p n' true false)

  unfoldable pub fall_through : Result X A × Invocation A X → X → Bool → Result X A × Invocation A X
  fall_through (ok a, p) x c = (ok a, unbacked p x c)
  fall_through (raised e, p) x true = (raised e, unbacked p x true)
  fall_through (raised e, p) x false = (raised x, unbacked p x false)

  -- `result`
  unfoldable pub result : Invocation A X → Result X A × Invocation A X
  result (completed r) = (r, completed r)
  result (waiting r x) = (r, completed r)
  result (transforming i f) = let (r, i') = result i in (r >>= f, transforming i' f)
  result (fallback p n true c) = let (r, n') = result n in (r, fallback p n' true c)
  result (fallback p n false c) = fall_back (result p) (result n) n c
  result (unbacked p x c) = fall_through (result p) x c

  -- `done`
  unfoldable pub done : Invocation A X → Bool
  done (completed r) = true
  done (waiting r x) = false
  done (transforming i f) = done i
  done (fallback p n true c) = done n
  done (fallback p n false c) = done p
  done (unbacked p x c) = done p

  -- `cancel`
  unfoldable pub cancel_invocation : Invocation A X → Bool × Invocation A X
  cancel_invocation (completed r) = (false, completed r)
  cancel_invocation (waiting r x) = (true, completed (raised x))
  cancel_invocation (transforming i f) = let (b, i') = cancel_invocation i in (b, transforming i' f)
  cancel_invocation (fallback p n true c) =
      let (b, n') = cancel_invocation n in (b, fallback p n' true (if b then true else c))
  cancel_invocation (fallback p n false c) =
      let (b, p') = cancel_invocation p in (b, fallback p' n false (if b then true else c))
  cancel_invocation (unbacked p x c) =
      let (b, p') = cancel_invocation p in (b, unbacked p' x (if b then true else c))

  -- `exception`
  unfoldable pub exception : Invocation A X → Option X × Invocation A X
  exception i = let (r, i') = result i in (elim r [ ok _ ↦ none | raised x ↦ some x ], i')
