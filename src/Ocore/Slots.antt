-- ===== src/Ocore/Slots.antt =====
-- Which key holds which place, as a partial function: the records of an Ocore task in memory
-- (by pool index) and on disk (by file index).
use grvy.Base.{ℕ, ◌<◌, ◌≤◌, ◌≡◌, ◌≢◌, Option, none, some, List, [], ◌∷◌, All, arith, if◌then◌else◌}
use grvy.Base.Map.{Key}

module _ {ℓ} {K : Type ℓ} ⦃o : Key K⦄ where
  abbrev pub upd {κ} : {A : Type κ} → (K → A) → K → A → K → A
  upd f k v j = if o.beq k j then v else f j

module _ {ℓ} {K : Type ℓ} where
  -- No two keys hold one place.
  pub record Inj (f : K → Option ℕ) : Type ℓ where
    pub apply : (j k : K) (s : ℕ) → f j ≡ some s → f k ≡ some s → j ≡ k

  -- Every place that is held is below n.
  pub record Below (f : K → Option ℕ) (n : ℕ) : Type ℓ where
    pub apply : (k : K) (s : ℕ) → f k ≡ some s → s < n

  -- No key holds the place s.
  pub record Unused (f : K → Option ℕ) (s : ℕ) : Type ℓ where
    pub apply : (k : K) → f k ≢ some s

  pub Below-mono : {f : K → Option ℕ} (m n : ℕ) → m ≤ n → Below f m → Below f n
  Below-mono m n h b = record { apply = λ k s e. let lt = b.apply k s e in omega arith }

  pub Below-Unused : {f : K → Option ℕ} (n : ℕ) → Below f n → Unused f n
  Below-Unused n b = record { apply = λ k e. let lt = b.apply k n e in absurd (omega arith) }

module _ {ℓ} {K : Type ℓ} ⦃o : Key K⦄ {f : K → Option ℕ} (k : K) where
  pub Inj-upd-none : Inj f → Inj (upd f k none)
  Inj-upd-none i = record { apply = λ a b s p q. ground (arith, i.apply a b s) }

  pub Inj-upd-some : (s : ℕ) → Inj f → Unused f s → Inj (upd f k (some s))
  Inj-upd-some s i u = record {
    apply = λ a b t p q.
        ground (arith, i.apply a b t, u.apply a, u.apply b, o.beq_iff k a, o.beq_iff k b);
  }

  pub Below-upd-none : (n : ℕ) → Below f n → Below (upd f k none) n
  Below-upd-none n b = record { apply = λ a s p. ground (arith, b.apply a s) }

  pub Below-upd-some : (n s : ℕ) → Below f n → s < n → Below (upd f k (some s)) n
  Below-upd-some n s b h = record { apply = λ a t p. ground (arith, b.apply a t) }

  pub Unused-upd_self : (s : ℕ) → Inj f → f k ≡ some s → Unused (upd f k none) s
  Unused-upd_self s i e = record { apply = λ a p. ground (arith, i.apply k a s, o.beq_iff k a) }

  pub Unused-upd-none : (s : ℕ) → Unused f s → Unused (upd f k none) s
  Unused-upd-none s u = record { apply = λ a p. ground (arith, u.apply a) }

  pub Unused-upd-some : (s t : ℕ) → t ≢ s → Unused f t → Unused (upd f k (some s)) t
  Unused-upd-some s t ne u = record { apply = λ a p. ground (arith, u.apply a) }

module _ {ℓ} {K : Type ℓ} ⦃o : Key K⦄ (f : K → Option ℕ) (k : K) where
  pub All-Unused-upd-none : (l : List ℕ) → All (Unused f) l → All (Unused (upd f k none)) l
  All-Unused-upd-none [] a = tt
  All-Unused-upd-none (s ∷ l) a = (Unused-upd-none k s a.0, All-Unused-upd-none l a.1)

  pub All-Unused-upd-some :
      (s : ℕ) (l : List ℕ)
      → All (λ t. t ≢ s) l
      → All (Unused f) l
      → All (Unused (upd f k (some s))) l
  All-Unused-upd-some s [] d a = tt
  All-Unused-upd-some s (t ∷ l) d a =
      (Unused-upd-some k s t d.0 a.0, All-Unused-upd-some s l d.1 a.1)
