-- ===== src/Conditioning/Cancelling.antt =====
-- backends/conditioning/invocation.py: what a cancelled invocation answers, and an invocation that is asked again.
use stability_toys.Prelude.{Bool, true, false, if◌then◌else◌, ◌≡◌, ◌≢◌, refl, arith, ap, ◌∙◌}
use stability_toys.Prelude.Effects.{Result, ok, raised}
use stability_toys.Prelude.Outcome.{◌>>=◌}
use stability_toys.Conditioning.Invocation.{
  Invocation, completed, waiting, transforming, fallback, unbacked, result, fall_back, fall_through,
  cancel_invocation,
}

module _ {A X : Type 0} where
  no_result_transformed :
      (r : Result X A) (f : A → Result X A) (a : A) → ((b : A) → r ≢ ok b) → (r >>= f) ≢ ok a
  no_result_transformed (ok b) f a h = absurd (h b refl)
  no_result_transformed (raised e) f a h = λ k. cc

  no_fall_back :
      (r m : Result X A × Invocation A X) (n : Invocation A X) (b c : Bool) (a : A)
      → b ≡ true
      → ((a : A) → r.0 ≢ ok a)
      → (fall_back r m n (if b then true else c)).0 ≢ ok a
  unfolding fall_back
  no_fall_back (ok k, p) m n b c a on h = absurd (h k refl)
  no_fall_back (raised e, p) (m, n') n true c a on h = λ k. cc
  no_fall_back (raised e, p) (m, n') n false c a on h = cc

  no_fall_through :
      (r : Result X A × Invocation A X) (x : X) (b c : Bool) (a : A)
      → b ≡ true
      → ((a : A) → r.0 ≢ ok a)
      → (fall_through r x (if b then true else c)).0 ≢ ok a
  unfolding fall_through
  no_fall_through (ok k, p) x b c a on h = absurd (h k refl)
  no_fall_through (raised e, p) x true c a on h = λ k. cc
  no_fall_through (raised e, p) x false c a on h = cc

  -- An invocation that was cancelled never gives a result: it neither transforms one nor falls back to
  -- the native service.
  result-cancel :
      (i : Invocation A X) (a : A)
      → (cancel_invocation i).0 ≡ true
      → (result (cancel_invocation i).1).0 ≢ ok a
  unfolding result cancel_invocation fall_back fall_through
  result-cancel (completed r) a h = ground arith
  result-cancel (waiting r x) a h = ground arith
  result-cancel (transforming i f) a h =
      no_result_transformed (result (cancel_invocation i).1).0 f a (λ b. result-cancel i b h)
  result-cancel (fallback p n true c) a h = result-cancel n a h
  result-cancel (fallback p n false c) a h =
      no_fall_back (result (cancel_invocation p).1) (result n) n (cancel_invocation p).0 c a h
        (λ b. result-cancel p b h)
  result-cancel (unbacked p x c) a h =
      no_fall_through (result (cancel_invocation p).1) x (cancel_invocation p).0 c a h
        (λ b. result-cancel p b h)

  again_primary :
      (r r' m : Result X A × Invocation A X) (n : Invocation A X) (c : Bool)
      → r'.0 ≡ r.0
      → (result m.1).0 ≡ m.0
      → result (fallback r.1 n false c) ≡ fall_back r' m n c
      → (result (fall_back r m n c).1).0 ≡ (fall_back r m n c).0
  unfolding result fall_back
  again_primary (ok a, p) (ok b, q) m n c same again runs = ap (λ t. t.0) runs ∙ same
  again_primary (ok a, p) (raised e, q) m n c same again runs = cc
  again_primary (raised e, p) (ok b, q) m n c same again runs = cc
  again_primary (raised e, p) (raised e', q) (s, n') n true same again runs =
      ap (λ t. t.0) runs ∙ same
  again_primary (raised e, p) (raised e', q) (s, n') n false same again runs = again

  again_through :
      (r r' : Result X A × Invocation A X) (x : X) (c : Bool)
      → r'.0 ≡ r.0
      → result (unbacked r.1 x c) ≡ fall_through r' x c
      → (result (fall_through r x c).1).0 ≡ (fall_through r x c).0
  unfolding result fall_through
  again_through (ok a, p) (ok b, q) x c same runs = ap (λ t. t.0) runs ∙ same
  again_through (ok a, p) (raised e, q) x c same runs = cc
  again_through (raised e, p) (ok b, q) x c same runs = cc
  again_through (raised e, p) (raised e', q) x true same runs = ap (λ t. t.0) runs ∙ same
  again_through (raised e, p) (raised e', q) x false same runs = ap (λ t. t.0) runs

  -- An invocation that is asked again answers the same.
  pub result_again : (i : Invocation A X) → (result (result i).1).0 ≡ (result i).0
  unfolding result fall_back fall_through
  result_again (completed r) = refl
  result_again (waiting r x) = refl
  result_again (transforming i f) = ap (λ r. r >>= f) (result_again i)
  result_again (fallback p n true c) = result_again n
  result_again (fallback p n false c) =
      again_primary (result p) (result (result p).1) (result n) n c (result_again p)
        (result_again n) refl
  result_again (unbacked p x c) =
      again_through (result p) (result (result p).1) x c (result_again p) refl
