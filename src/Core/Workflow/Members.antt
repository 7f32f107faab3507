-- ===== src/Core/Workflow/Members.antt =====
-- Membership in a list of texts, as a proposition by recursion.
use text.Mathlib.TextPositions.{eq_refl}
use delta_agent.Common.{
  Bool, false, ◌||◌, ◌≤◌, ◌<◌, ◌&&◌, refl, subst, length, ◌++◌, Bool-cases, String, true, List, [],
  ◌∷◌, ◌≡◌, ◌⊎◌, inl, inr, arith, eq_iff, str_eq,
}
use delta_agent.Core.Workflow.{member, keep_members, disjoint}

abbrev pub Elem : String → List String → Type 0
Elem x [] = ⊥
Elem x (y ∷ ys) = (y ≡ x) ⊎ Elem x ys

pub member→Elem : (x : String) (xs : List String) → member x xs ≡ true → Elem x xs
unfolding member
member→Elem x [] h = cc
member→Elem x (y ∷ ys) h = elim (Bool-cases (str_eq y x)) [
  | inl e ↦ inl ((eq_iff y x).0 e)
  | inr e ↦ inr (member→Elem x ys (rw e at h))
]

pub Elem→member : (x : String) (xs : List String) → Elem x xs → member x xs ≡ true
unfolding member
Elem→member x [] h = elim h [ ]
Elem→member x (y ∷ ys) (inl e) = rw ((eq_iff y x).1 e)
Elem→member x (y ∷ ys) (inr e) = ground (arith, Elem→member x ys e)

pub member-append :
    (x : String) (xs ys : List String) → member x (xs ++ ys) ≡ (member x xs || member x ys)
unfolding member
member-append x [] ys = refl
member-append x (y ∷ xs) ys = ground (arith, member-append x xs ys)

pub member-keep_members :
    (p : String → Bool) (x : String) (xs : List String)
    → member x (keep_members p xs) ≡ (member x xs && p x)
unfolding member keep_members
member-keep_members p x [] = refl
member-keep_members p x (y ∷ ys) = elim (Bool-cases (str_eq y x)) [
  | inl e ↦
      subst (λ z. member z (keep_members p (y ∷ ys)) ≡ (member z (y ∷ ys) && p z))
        ((eq_iff y x).0 e) (ground (arith, eq_refl y, member-keep_members p y ys))
  | inr e ↦ ground (arith, member-keep_members p x ys)
]

pub disjoint-member :
    (ds xs : List String) (d : String)
    → disjoint ds xs ≡ true
    → member d ds ≡ true
    → member d xs ≡ false
unfolding member disjoint
disjoint-member [] xs d h m = cc
disjoint-member (e ∷ ds) xs d h m = elim (Bool-cases (str_eq e d)) [
  | inl same ↦ rw (← (eq_iff e d).0 same) (ground arith)
  | inr other ↦ disjoint-member ds xs d (ground arith) (ground arith)
]

pub length-keep_members-le :
    (p : String → Bool) (xs : List String) → length (keep_members p xs) ≤ length xs
unfolding keep_members
length-keep_members-le p [] = omega arith
length-keep_members-le p (x ∷ xs) = ground (arith, length-keep_members-le p xs)

-- A filter that drops a member makes the list shorter.
pub length-keep_members-lt :
    (p : String → Bool) (x : String) (xs : List String)
    → member x xs ≡ true
    → p x ≡ false
    → length (keep_members p xs) < length xs
unfolding member keep_members
length-keep_members-lt p x [] m h = cc
length-keep_members-lt p x (y ∷ ys) m h = elim (Bool-cases (str_eq y x)) [
  | inl same ↦
      let e : p y ≡ false = rw ((eq_iff y x).0 same) h in
      ground (arith, length-keep_members-le p ys)
  | inr other ↦ ground (arith, length-keep_members-lt p x ys)
]
