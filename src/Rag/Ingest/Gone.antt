-- ===== src/Rag/Ingest/Gone.antt =====
-- The workers of Ingest that have returned, and those that hold a result.
use turbograph.Prelude.{
  ℕ, zero, suc, ◌<◌, ◌≡◌, refl, Bool, true, false, List, [], ◌∷◌, some, arith, length, get_elem?,
  set, replicate,
}
use turbograph.Prelude.Sorting.{sum_by}
use turbograph.Rag.Store.{Sorts}
use turbograph.Rag.Ingest.{Worker, idle, holding, gone, all_gone}

abbrev pub held : {τ : Sorts} → Worker τ → ℕ
held idle = 0
held (holding x) = 1
held gone = 0

abbrev pub any_gone : {τ : Sorts} → List (Worker τ) → Bool
any_gone [] = false
any_gone (gone ∷ ws) = true
any_gone (idle ∷ ws) = any_gone ws
any_gone (holding x ∷ ws) = any_gone ws

unfoldable pub is_gone : {τ : Sorts} → Worker τ → Bool
is_gone idle = false
is_gone (holding x) = false
is_gone gone = true

pub any_gone-set :
    {τ : Sorts} (ws : List (Worker τ)) (i : ℕ) (x y : Worker τ)
    → get_elem? ws i ≡ some x
    → is_gone x ≡ false
    → is_gone y ≡ false
    → any_gone (set ws i y) ≡ any_gone ws
unfolding is_gone
any_gone-set [] i x y h hx hy = refl
any_gone-set (idle ∷ ws) zero x idle h hx hy = refl
any_gone-set (idle ∷ ws) zero x (holding z) h hx hy = refl
any_gone-set (idle ∷ ws) zero x gone h hx hy = absurd (cc)
any_gone-set (holding w ∷ ws) zero x idle h hx hy = refl
any_gone-set (holding w ∷ ws) zero x (holding z) h hx hy = refl
any_gone-set (holding w ∷ ws) zero x gone h hx hy = absurd (cc)
any_gone-set (gone ∷ ws) zero x y h hx hy = absurd (ground (arith, h, hx))
any_gone-set (idle ∷ ws) (suc i) x y h hx hy = any_gone-set ws i x y h hx hy
any_gone-set (holding w ∷ ws) (suc i) x y h hx hy = any_gone-set ws i x y h hx hy
any_gone-set (gone ∷ ws) (suc i) x y h hx hy = refl

pub all_gone-get :
    {τ : Sorts} (ws : List (Worker τ)) (i : ℕ) (x : Worker τ)
    → all_gone ws ≡ true
    → get_elem? ws i ≡ some x
    → is_gone x ≡ true
unfolding all_gone is_gone
all_gone-get [] i x h there = absurd (cc)
all_gone-get (gone ∷ ws) zero x h there = ground (arith, there)
all_gone-get (gone ∷ ws) (suc i) x h there = all_gone-get ws i x h there
all_gone-get (idle ∷ ws) i x h there = absurd (cc)
all_gone-get (holding w ∷ ws) i x h there = absurd (cc)

pub all_gone-held : {τ : Sorts} (ws : List (Worker τ)) → all_gone ws ≡ true → sum_by held ws ≡ 0
unfolding all_gone
all_gone-held [] h = refl
all_gone-held (gone ∷ ws) h = omega (arith, all_gone-held ws h)
all_gone-held (idle ∷ ws) h = absurd (cc)
all_gone-held (holding w ∷ ws) h = absurd (cc)

pub all_gone-any :
    {τ : Sorts} (ws : List (Worker τ)) → all_gone ws ≡ true → 0 < length ws → any_gone ws ≡ true
unfolding all_gone
all_gone-any [] h some_worker = absurd (omega arith)
all_gone-any (gone ∷ ws) h some_worker = refl
all_gone-any (idle ∷ ws) h some_worker = absurd (cc)
all_gone-any (holding w ∷ ws) h some_worker = absurd (cc)

pub nothing_held : (τ : Sorts) (n : ℕ) → sum_by (held {τ = τ}) (replicate n idle) ≡ 0
nothing_held τ zero = refl
nothing_held τ (suc n) = omega (arith, nothing_held τ n)

pub none_gone : (τ : Sorts) (n : ℕ) → any_gone (replicate {A = Worker τ} n idle) ≡ false
none_gone τ zero = refl
none_gone τ (suc n) = none_gone τ n
