-- ===== src/Pbft/Caches/Entries.antt =====
-- Properties of every message in a cache, under each change that libpbftseal/PBFT.cpp makes to one.
use utispace_chain.Prelude.{ℕ, ◌≡◌, [], ◌∷◌, Bool, true, keep, All, All-keep, keep-All}
use utispace_chain.Prelude.Map.{
  Map, at, touch, modify, erase, All-insert, All-at, All-touch, All-modify, All-erase,
}
use utispace_chain.Pbft.Msg.{PbftMsg}
use utispace_chain.Pbft.Caches.{Cache, put_msg, cons_nonempty, prune}

-- `P k j m` for each message `m`, filed under `k` and `j`.
abbrev pub AllMsgs {κ} : (ℕ → ℕ → PbftMsg → Type κ) → Cache → Type κ
AllMsgs P c = All (λ e. All (λ d. P e.0 d.0 d.1) e.1) c

module _ {κ} (P : ℕ → ℕ → PbftMsg → Type κ) where
  pub AllMsgs-at : (k : ℕ) (c : Cache) → AllMsgs P c → All (λ d. P k d.0 d.1) (at [] k c)
  AllMsgs-at k c h = All-at (λ e. All (λ d. P e.0 d.0 d.1) e.1) [] k c tt h

  pub AllMsgs-touch : (k : ℕ) (c : Cache) → AllMsgs P c → AllMsgs P (touch [] k c)
  AllMsgs-touch k c h = All-touch (λ e. All (λ d. P e.0 d.0 d.1) e.1) [] k c tt h

  pub AllMsgs-erase : (k : ℕ) (c : Cache) → AllMsgs P c → AllMsgs P (erase k c)
  AllMsgs-erase k c h = All-erase (λ e. All (λ d. P e.0 d.0 d.1) e.1) k c h

  pub AllMsgs-put_msg :
      (k j : ℕ) (m : PbftMsg) (c : Cache) → P k j m → AllMsgs P c → AllMsgs P (put_msg k j m c)
  unfolding put_msg
  AllMsgs-put_msg k j m c p h =
      All-insert (λ e. All (λ d. P e.0 d.0 d.1) e.1) k _ c
        (All-insert (λ d. P k d.0 d.1) j m (at [] k c) p (AllMsgs-at k c h)) h

  -- The entries that are dropped from one inner map.
  pub AllMsgs-modify_keep :
      (k : ℕ) (t : ℕ × PbftMsg → Bool) (c : Cache) → AllMsgs P c → AllMsgs P (modify k (keep t) c)
  AllMsgs-modify_keep k t c h =
      All-modify (λ e. All (λ d. P e.0 d.0 d.1) e.1) k (keep t) c
        (λ v hv. All-keep (λ d. P k d.0 d.1) t v hv) h

  AllMsgs-cons_nonempty :
      (k : ℕ) (m : Map PbftMsg) (c : Cache)
      → All (λ d. P k d.0 d.1) m
      → AllMsgs P c
      → AllMsgs P (cons_nonempty k m c)
  unfolding cons_nonempty
  AllMsgs-cons_nonempty k [] c hm h = h
  AllMsgs-cons_nonempty k (e ∷ es) c hm h = (hm, h)

  pub AllMsgs-prune : (t : ℕ × PbftMsg → Bool) (c : Cache) → AllMsgs P c → AllMsgs P (prune t c)
  unfolding prune
  AllMsgs-prune t [] h = tt
  AllMsgs-prune t ((k, m) ∷ c) h =
      AllMsgs-cons_nonempty k (keep t m) (prune t c) (All-keep (λ d. P k d.0 d.1) t m h.0)
        (AllMsgs-prune t c h.1)

prune_passes_cons :
    (t : ℕ × PbftMsg → Bool) (k : ℕ) (m : Map PbftMsg) (c : Cache)
    → All (λ d. t d ≡ true) m
    → AllMsgs (λ k j m. t (j, m) ≡ true) c
    → AllMsgs (λ k j m. t (j, m) ≡ true) (cons_nonempty k m c)
prune_passes_cons t k m c hm h = AllMsgs-cons_nonempty (λ k j m. t (j, m) ≡ true) k m c hm h

-- What is left after pruning passes the test.
pub prune_passes :
    (t : ℕ × PbftMsg → Bool) (c : Cache) → AllMsgs (λ k j m. t (j, m) ≡ true) (prune t c)
unfolding prune
prune_passes t [] = tt
prune_passes t ((k, m) ∷ c) =
    prune_passes_cons t k (keep t m) (prune t c) (keep-All t m) (prune_passes t c)

-- No inner map is left empty.
abbrev pub NonEmpty : ℕ × Map PbftMsg → Type 0
NonEmpty (k, []) = ⊥
NonEmpty (k, e ∷ es) = Unit {0}

NonEmpty-cons_nonempty :
    (k : ℕ) (m : Map PbftMsg) (c : Cache) → All NonEmpty c → All NonEmpty (cons_nonempty k m c)
unfolding cons_nonempty
NonEmpty-cons_nonempty k [] c h = h
NonEmpty-cons_nonempty k (e ∷ es) c h = (tt, h)

pub prune-NonEmpty : (t : ℕ × PbftMsg → Bool) (c : Cache) → All NonEmpty (prune t c)
unfolding prune
prune-NonEmpty t [] = tt
prune-NonEmpty t ((k, m) ∷ c) = NonEmpty-cons_nonempty k (keep t m) (prune t c) (prune-NonEmpty t c)
