-- ===== src/Layer/Write/Newest.antt =====
-- internal/layer/write.go: the batch against a description of what it should hold. Of each id it
-- holds the newest live version that was written, where of two equally new ones the later counts.
use mysql_datalayer.Prelude.{ℕ, ◌≤◌, ◌<◌, ◌≡◌, false, List, [], ◌∷◌, arith, All, Text}
use mysql_datalayer.Layer.Write.Writer.{Entity}

module _ (key : Entity → Text) (k : Text) where
  -- A version of the entity `k` that is not deleted.
  abbrev pub IsLive : Entity → Type 0
  IsLive e = (key e ≡ k) × (e.is_deleted ≡ false)

  -- The newest live version in a list that has the last written first.
  pub data IsNewest : List Entity → Entity → Type 0 where
    here :
        (e : Entity) (older : List Entity)
        → IsLive e
        → All (λ x. IsLive x → x.recorded ≤ e.recorded) older
        → IsNewest (e ∷ older) e
    below :
        (x e : Entity) (older : List Entity)
        → (IsLive x → x.recorded < e.recorded)
        → IsNewest older e
        → IsNewest (x ∷ older) e

  pub IsNewest-max :
      {es : List Entity} {e : Entity}
      → IsNewest es e
      → All (λ x. IsLive x → x.recorded ≤ e.recorded) es
  IsNewest-max (here e older live h) = (λ _. omega arith, h)
  IsNewest-max (below x e older h n) = (λ live. omega (arith, h live), IsNewest-max n)

  pub All-le_trans :
      (es : List Entity) (m n : ℕ)
      → m ≤ n
      → All (λ x. IsLive x → x.recorded ≤ m) es
      → All (λ x. IsLive x → x.recorded ≤ n) es
  All-le_trans [] m n h _ = tt
  All-le_trans (x ∷ es) m n h (p, ps) = (λ live. omega (arith, p live), All-le_trans es m n h ps)

  pub All-none-IsLive :
      (es : List Entity) (n : ℕ)
      → All (λ x. ¬ (IsLive x)) es
      → All (λ x. IsLive x → x.recorded ≤ n) es
  All-none-IsLive [] n _ = tt
  All-none-IsLive (x ∷ es) n (p, ps) = (λ live. absurd (p live), All-none-IsLive es n ps)

  pub IsNewest-not_dead :
      {es : List Entity} {e : Entity} → IsNewest es e → All (λ x. ¬ (IsLive x)) es → ⊥
  IsNewest-not_dead (here e older live h) (dead, _) = dead live
  IsNewest-not_dead (below x e older h n) (_, dead) = IsNewest-not_dead n dead
