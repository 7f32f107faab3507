-- ===== src/Engine/Counting.antt =====
-- delta/execute.py: rules that count the calls of executors over the statements of a body.
use delta_agent.Common.Result.{ok}
use delta_agent.Engine.Calls.{Keeps}
use delta_agent.Common.Action.{>>=-returned, Ensures, ◌>>=◌, Action}
use delta_agent.Engine.World.{World}
use delta_agent.Store.Client.{MemoryClient}
use delta_agent.Common.{ap, if◌then◌else◌, Bool, ℕ, ◌≡◌, true, false, ◌+◌, arith}

module _ (client : MemoryClient) where
  module _ {A : Type 0} (count : A → ℕ) where
    -- A call that returns `a` has called executors `count a` times.
    unfoldable pub Counts : Action (World client) A → Type 0
    Counts m =
        (w : World client) (a : A) (v : World client)
        → m w ≡ (ok a, v)
        → v.calls ≡ w.calls + count a

    -- A call that calls no executor.
    pub kept-Counts :
        (m : Action (World client) A) → Keeps client m → Ensures m (λ a. count a ≡ 0) → Counts m
    unfolding Counts Keeps
    kept-Counts m kept none_of w a v h =
        let e = ap (λ q. (q.1).calls) h in let z = none_of w a v h in let k = kept w in omega arith

    pub if-Counts :
        (b : Bool) (first second : Action (World client) A)
        → Counts first
        → Counts second
        → Counts (if b then first else second)
    if-Counts true first second of_first of_second = of_first
    if-Counts false first second of_first of_second = of_second

  module _ {A B : Type 0} (count : A → ℕ) (total : B → ℕ) where
    -- The calls of the first statement and those of the rest.
    pub >>=-Counts :
        (first : Action (World client) A) (rest : A → Action (World client) B)
        → Counts count first
        → ((a : A) (w : World client) (b : B) (v : World client)
            → rest a w ≡ (ok b, v)
            → v.calls + count a ≡ w.calls + total b)
        → Counts total (first >>= rest)
    unfolding Counts
    >>=-Counts first rest counted each w b v h =
        let (a, u, h1, h2) = >>=-returned first rest w h in
        let c = counted w a u h1 in let d = each a u b v h2 in omega arith

  module _ {A B : Type 0} (total : B → ℕ) where
    -- The rest may use what holds of the value of the first statement.
    pub >>=-Counts_given :
        (Q : A → Type 0) (first : Action (World client) A) (rest : A → Action (World client) B)
        → Keeps client first
        → Ensures first Q
        → ((a : A) → Q a → Counts total (rest a))
        → Counts total (first >>= rest)
    unfolding Counts Keeps
    >>=-Counts_given Q first rest kept given each w b v h =
        let (a, u, h1, h2) = >>=-returned first rest w h in
        let k = kept w in
        let e = ap (λ q. (q.1).calls) h1 in let d = each a (given w a u h1) u b v h2 in omega arith

    pub >>=-Counts_kept :
        (first : Action (World client) A) (rest : A → Action (World client) B)
        → Keeps client first
        → ((a : A) → Counts total (rest a))
        → Counts total (first >>= rest)
    >>=-Counts_kept first rest kept each =
        >>=-Counts_given (λ a. Unit) first rest kept (λ w a v h. tt) (λ a q. each a)
