-- ===== src/Storage/Tests.antt =====
-- The storage provider on concrete inputs, and each theorem at one of them.
use stability_toys.Prelude.{
  ℕ, ◌≡◌, refl, String, [], ◌∷◌, Option, none, true, some, arith, same_text, if◌then◌else◌,
}
use stability_toys.Prelude.Dict.{lookup, insert, erase, keys}
use stability_toys.Prelude.Effects.{ok, raised}
use stability_toys.Assets.Model.{text, AssetEntry, BucketPolicy}
use stability_toys.Storage.Codec.{encode, decode, stored, decode-encode}
use stability_toys.Storage.Memory.{
  StorageItem, Provider, empty_min, init, expired_keys, pop_all, purge_expired, oldest, make_room,
  new_item, put, get, is_expired,
}
use stability_toys.Storage.Limits.{IsWithin, get-put}

-- What the tests compute with.
program : Unit {0}
unfolding init lookup insert erase same_text expired_keys pop_all purge_expired oldest make_room put
    get
program = tt

abbrev item : ℕ → String → Option ℕ → StorageItem
item now key ttl_s = new_item now key (1 ∷ 2 ∷ []) (text "image/png") [] ttl_s

-- A provider of two items, one of them with ten seconds to live.
abbrev two : Provider
two = record { max_items = 2; items = ("a", item 1 "a" (some 10)) ∷ ("b", item 2 "b" none) ∷ [] }

drops_oldest : keys (put 5 (item 5 "c" none) two).1.items ≡ "b" ∷ "c" ∷ []
unfolding program
drops_oldest = refl

drops_expired : keys (put 11 (item 11 "c" none) two).1.items ≡ "b" ∷ "c" ∷ []
unfolding program
drops_expired = refl

-- A limit of 0 lets nothing in.
no_limit : put 5 (item 5 "c" none) (init 0) ≡ (raised empty_min, init 0)
unfolding program
no_limit = refl

two-IsWithin : IsWithin two
unfolding program
two-IsWithin = record { distinct = (refl, (refl, tt)); limited = omega arith }

get-put_example :
    (get 14 15 "c" (put 5 (item 5 "c" (some 20)) two).1).0
    ≡ (if is_expired 15 (item 5 "c" (some 20)) then none else some (item 5 "c" (some 20)))
get-put_example =
    get-put 5 (item 5 "c" (some 20)) 14 15 two two-IsWithin (omega arith) (omega arith)

abbrev durable : BucketPolicy
durable = record {
  name = "upload";
  byte_budget = 4;
  ttl_s = none;
  pinnable = true;
  persist = true;
  persistence_ttl_s = some 60;
}

abbrev picture : AssetEntry
picture = record {
  ref = "r1";
  content = 1 ∷ 2 ∷ 3 ∷ [];
  bucket = "upload";
  created_at = 4;
  last_accessed = 6;
  byte_size = 3;
  metadata = ("media_type", text "image/png") ∷ [];
  pin_count = 2;
}

decode-encode_example :
    decode 9 (stored 8 (encode picture durable))
    ≡ ok (record picture { last_accessed = 9; pin_count = 0 })
unfolding program
decode-encode_example = decode-encode 8 9 picture durable refl refl refl
