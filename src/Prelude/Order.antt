-- ===== src/Prelude/Order.antt =====
-- What `std::map` asks of a key type: a strict total order, given by its Boolean `operator<`.
use blockchain_db.Prelude.{◌≡◌, refl, ◌↔◌, Bool, true, false, not, ◌&&◌, arith}

pub record IsStrict {ℓ} {K : Type ℓ} (lt : K → K → Bool) : Type ℓ where
  pub irrefl : (a : K) → lt a a ≡ false
  pub lt_trans : (a b c : K) → lt a b ≡ true → lt b c ≡ true → lt a c ≡ true
  pub eq_of_not_lt : (a b : K) → lt a b ≡ false → lt b a ≡ false → a ≡ b

pub record Ord {ℓ} (K : Type ℓ) : Type ℓ where
  pub lt : K → K → Bool
  pub strict : IsStrict lt
  pub open strict use *

module _ {ℓ} {K : Type ℓ} ⦃o : Ord K⦄ where
  -- The equivalence of keys by which `std::map` finds: neither is less than the other.
  unfoldable pub same : K → K → Bool
  same a b = not (o.lt a b) && not (o.lt b a)

  pub same_iff : (a b : K) → (same a b ≡ true) ↔ (a ≡ b)
  unfolding same
  same_iff a b = (λ h. ground (arith, o.eq_of_not_lt a b), λ e. rw e (rw (o.irrefl b)))

  pub same_refl : (a : K) → same a a ≡ true
  same_refl a = (same_iff a a).1 refl
