-- ===== src/Json/Canonical/Order.antt =====
-- The canonical text of an object does not depend on the order in which its members were set.
use mathlib.Core.List.{Permᴰ, Perm, Mem, Nodup, Nodup-cons, mem-cons_self, is_set}
use mathlib.Core.List.Perm
use mathlib.Core.List.Permᴰ
use mathlib.Core.Logic.{∥∥₁_elim}
use mathlib.Core.Path.{ap₂}
use native.Mathlib.Nat.{ℕ_set}
use parimit.Common.{
  ◌≡◌, ◌≢◌, refl, sym, ap, subst, ◌∙◌, ◌⊎◌, inl, inr, true, false, List, [], ◌∷◌, map, arith,
}
use parimit.Text.{Text, text_lt}
use parimit.Json.{Json, Fields, end, field, obj}
use parimit.Json.Canonical.{
  insert, sort, object_text, canonicalize, canonicalize_fields, canonical_json,
}

lt_asym : (s t : Text) → text_lt s t ≡ true → text_lt t s ≡ false
unfolding text_lt
lt_asym s [] h = cc
lt_asym [] (b ∷ t) h = refl
lt_asym (a ∷ s) (b ∷ t) h = ground (arith, lt_asym s t)

lt_total : (s t : Text) → s ≢ t → text_lt s t ≡ false → text_lt t s ≡ true
unfolding text_lt
lt_total [] [] n h = absurd (n refl)
lt_total (a ∷ s) [] n h = refl
lt_total [] (b ∷ t) n h = cc
lt_total (a ∷ s) (b ∷ t) n h = ground (arith, lt_total s t)

-- Between two texts in order, a third lies above the first or below the second.
lt_between : (s u t : Text) → text_lt s t ≡ true → (text_lt s u ≡ true) ⊎ (text_lt u t ≡ true)
unfolding text_lt
lt_between s u [] h = cc
lt_between [] [] (b ∷ t) h = inr refl
lt_between [] (c ∷ u) (b ∷ t) h = inl refl
lt_between (a ∷ s) [] (b ∷ t) h = inr refl
lt_between (a ∷ s) (c ∷ u) (b ∷ t) h = ground (arith, lt_between s u t)

insert_comm :
    (a b : Text × Text) (xs : List (Text × Text))
    → a.0 ≢ b.0
    → insert a (insert b xs) ≡ insert b (insert a xs)
unfolding insert
insert_comm a b [] n = ground (arith, lt_asym a.0 b.0, lt_total a.0 b.0)
insert_comm a b (x ∷ xs) n = ground (
  arith,
  lt_asym a.0 b.0,
  lt_asym b.0 a.0,
  lt_total a.0 b.0 n,
  lt_between x.0 b.0 a.0,
  lt_between x.0 a.0 b.0,
  lt_between a.0 x.0 b.0,
  lt_between b.0 x.0 a.0,
  lt_asym x.0 a.0,
  lt_asym x.0 b.0,
  insert_comm a b xs n,
)

abbrev keys_of : List (Text × Text) → List Text
keys_of = map (λ e. e.0)

ne_of_Nodup : {a b : Text} {l : List Text} → Nodup (a ∷ b ∷ l) → a ≢ b
ne_of_Nodup {b} {l} d e = (Nodup-cons.0 d).0 (subst (λ t. Mem t (b ∷ l)) (sym e) mem-cons_self)

sort_perm : {xs ys : List (Text × Text)} → Permᴰ xs ys → Nodup (keys_of xs) → sort xs ≡ sort ys
unfolding sort
sort_perm Permᴰ.nil d = refl
sort_perm (Permᴰ.cons e p) d = ap₂ insert e (sort_perm p (Nodup-cons.0 d).1)
sort_perm (Permᴰ.swap {a} {b} {l} e f) d =
    insert_comm a b (sort l) (ne_of_Nodup d) ∙ ap₂ insert f (ap₂ insert e refl)
sort_perm (Permᴰ.trans p q) d = sort_perm p d ∙ sort_perm q (Perm.nodup (Perm.map _ ∣ p ∣₁) d)

-- The members of an object, in the order in which they were set.
abbrev pub members_of : Fields → List (Text × Json)
members_of end = []
members_of (field k v fs) = (k, v) ∷ members_of fs

abbrev print_member : Text × Json → Text × Text
print_member (k, v) = (k, canonicalize v)

canonicalize_fields-map : (fs : Fields) → canonicalize_fields fs ≡ map print_member (members_of fs)
unfolding canonicalize
canonicalize_fields-map end = refl
canonicalize_fields-map (field k v fs) = ap (◌∷◌ (k, canonicalize v)) (canonicalize_fields-map fs)

keys_of-print : (ms : List (Text × Json)) → keys_of (map print_member ms) ≡ map (λ m. m.0) ms
keys_of-print [] = refl
keys_of-print ((k, v) ∷ ms) = ap (◌∷◌ k) (keys_of-print ms)

object_text_perm :
    (ms ns : List (Text × Json))
    → Permᴰ ms ns
    → Nodup (map (λ m. m.0) ms)
    → object_text (map print_member ms) ≡ object_text (map print_member ns)
unfolding object_text
object_text_perm ms ns p d = rw (sort_perm (Permᴰ.map print_member p) (rw keys_of-print d))

-- Two objects with the same members, each key once, have the same canonical text in whatever order
-- their members were set.
pub canonical_json_perm :
    (fs gs : Fields)
    → Perm (members_of fs) (members_of gs)
    → Nodup (map (λ m. m.0) (members_of fs))
    → canonical_json (obj fs) ≡ canonical_json (obj gs)
unfolding canonical_json
canonical_json_perm fs gs p d = ∥∥₁_elim p (is_set ℕ_set _ _) λ q.
    rw (canonicalize_fields-map fs, canonicalize_fields-map gs)
      (object_text_perm (members_of fs) (members_of gs) q d)
