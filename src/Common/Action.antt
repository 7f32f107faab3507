-- ===== src/Common/Action.antt =====
-- Calls that read and write a state and may raise: what was written before an exception stays written.
use mathlib.Core.Path.{◌≡◌, refl, ap, subst, ◌∙◌}
use mathlib.Core.Bool.{Bool, true, false}
use delta_agent.Common.Basics.{if◌then◌else◌}
use delta_agent.Common.Result.{Result, ok, err, Error, ok-injective}

abbrev pub Action : Type 0 → Type 0 → Type 0
Action S A = S → Result A × S

module _ {S A : Type 0} where
  abbrev pub pure : A → Action S A
  pure a s = (ok a, s)

  -- A computation that does not touch the state.
  abbrev pub lift : Result A → Action S A
  lift r s = (r, s)

module _ {S A B : Type 0} where
  -- The rest of a body, from how its first statement ended.
  abbrev pub proceed : (A → Action S B) → Result A × S → Result B × S
  proceed rest (ok a, s) = rest a s
  proceed rest (err raised, s) = (err raised, s)

  infixl 5 ◌>>=◌
  abbrev pub ◌>>=◌ : Action S A → (A → Action S B) → Action S B
  ◌>>=◌ first rest s = proceed rest (first s)

module _ {S B : Type 0} where
  infixl 5 ◌>>◌
  abbrev pub ◌>>◌ : Action S (Unit {0}) → Action S B → Action S B
  first >> rest = first >>= λ done. rest

module _ {S A : Type 0} where
  abbrev pub recover : (Error → Action S A) → Result A × S → Result A × S
  recover handler (ok a, s) = (ok a, s)
  recover handler (err raised, s) = handler raised s

  -- try: body; except Exception as error: handler(error)
  abbrev pub try_except : Action S A → (Error → Action S A) → Action S A
  try_except body handler s = recover handler (body s)

module _ {S A : Type 0} where
  -- `P` holds of the value, whenever the call returns.
  abbrev pub Ensures : Action S A → (A → Type 0) → Type 0
  Ensures m P = (s : S) (a : A) (t : S) → m s ≡ (ok a, t) → P a

module _ {S A B : Type 0} where
  -- A body that returned has come past its first statement.
  pub >>=-returned :
      (first : Action S A) (rest : A → Action S B) (s : S) {b : B} {u : S}
      → (first >>= rest) s ≡ (ok b, u)
      → (a : A) × (t : S) × (first s ≡ (ok a, t)) × (rest a t ≡ (ok b, u))
  >>=-returned first rest s {b} {u} h = past (first s) refl h
    where
      past :
          (r : Result A × S)
          → first s ≡ r
          → proceed rest r ≡ (ok b, u)
          → (a : A) × (t : S) × (first s ≡ (ok a, t)) × (rest a t ≡ (ok b, u))
      past (ok a, t) e k = (a, t, e, k)
      past (err raised, t) e k = cc

  pub lift-returned :
      (r : Result A) (rest : A → Action S B) (s : S) {b : B} {u : S}
      → (lift r >>= rest) s ≡ (ok b, u)
      → (a : A) × (r ≡ ok a) × (rest a s ≡ (ok b, u))
  lift-returned (ok a) rest s h = (a, refl, h)
  lift-returned (err raised) rest s h = cc

  -- A body goes on after its first statement.
  pub >>=-next :
      (first : Action S A) (rest : A → Action S B) (s : S) {a : A} {t : S} {end : Result B × S}
      → first s ≡ (ok a, t)
      → rest a t ≡ end
      → (first >>= rest) s ≡ end
  >>=-next first rest s h k = ap (proceed rest) h ∙ k

  module _ (P : B → Type 0) where
    -- What holds of the values of the rest holds of the values of the whole.
    pub >>=-Ensures :
        (first : Action S A) (rest : A → Action S B)
        → ((a : A) → Ensures (rest a) P)
        → Ensures (first >>= rest) P
    >>=-Ensures first rest each s b u h =
        let (a, t, h1, h2) = >>=-returned first rest s h in each a t b u h2

    -- The rest may use what holds of the value of the first statement.
    pub >>=-Ensures_given :
        (Q : A → Type 0) (first : Action S A) (rest : A → Action S B)
        → Ensures first Q
        → ((a : A) → Q a → Ensures (rest a) P)
        → Ensures (first >>= rest) P
    >>=-Ensures_given Q first rest given each s b u h =
        let (a, t, h1, h2) = >>=-returned first rest s h in each a (given s a t h1) t b u h2

module _ {S A : Type 0} (P : A → Type 0) where
  pub pure-Ensures : (a : A) → P a → Ensures (pure {S = S} a) P
  pure-Ensures a p s b u h = subst P (ok-injective (ap (λ q. q.0) h)) p

  pub lift-Ensures : (r : Result A) → ((a : A) → r ≡ ok a → P a) → Ensures (lift {S = S} r) P
  lift-Ensures r each s b u h = each b (ap (λ q. q.0) h)

  pub try_except-Ensures :
      (body : Action S A) (handler : Error → Action S A)
      → Ensures body P
      → ((e : Error) → Ensures (handler e) P)
      → Ensures (try_except body handler) P
  try_except-Ensures body handler of_body of_handler s b u h = ended (body s) refl h
    where
      ended : (r : Result A × S) → body s ≡ r → recover handler r ≡ (ok b, u) → P b
      ended (ok a, t) e k = of_body s b u (e ∙ k)
      ended (err raised, t) e k = of_handler raised t b u k

  pub if-Ensures :
      (b : Bool) (first second : Action S A)
      → Ensures first P
      → Ensures second P
      → Ensures (if b then first else second) P
  if-Ensures true first second of_first of_second = of_first
  if-Ensures false first second of_first of_second = of_second
