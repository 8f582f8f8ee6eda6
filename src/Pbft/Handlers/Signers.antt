-- ===== src/Pbft/Handlers/Signers.antt =====
-- How `handleSignMsg` of libpbftseal/PBFT.cpp counts the signatures.
use mathlib.Core.Path.{subst}
use utispace_chain.Prelude.{ℕ, ◌+◌, [], ◌∷◌, ◌≡◌, ◌≢◌, sym, ap, ◌∙◌, false, length, arith}
use utispace_chain.Prelude.Map.{Map, has, insert, length-insert}
use utispace_chain.Pbft.Msg.{PbftMsg}
use utispace_chain.Pbft.State.{Net, World, State}
use utispace_chain.Pbft.Caches.{is_exist_sign}
use utispace_chain.Pbft.Commit.{have_sign}
use utispace_chain.Pbft.Handlers.{handle_sign_msg}
use utispace_chain.Pbft.Handlers.Counted.{
  AcceptedFor, Accepted, signs, has-at, signs-handle_sign_msg,
}

has-insert_ne : {V : Type 0} (k j : ℕ) (v : V) (m : Map V) → k ≢ j → has j (insert k v m) ≡ has j m
unfolding has insert
has-insert_ne k j v [] h = ground arith
has-insert_ne k j v ((i, w) ∷ m) h = ground (arith, has-insert_ne k j v m h)

pub is_exist_sign-signs :
    (m : PbftMsg) (s : State)
    → s.prepare_cache.block_hash ≡ m.block_hash
    → is_exist_sign m s ≡ has m.sig (signs s)
unfolding is_exist_sign
is_exist_sign-signs m s h = rw h (has-at m.block_hash m.sig s.sign_cache)

module _ (net : Net) (w : World) where
  -- A new sign request that is accepted for the prepared block raises the number of its signatures
  -- by exactly one, whatever `checkAndCommit` does then.
  pub have_sign-handle_sign_msg :
      (m : PbftMsg) (s : State)
      → Accepted net m s
      → is_exist_sign m s ≡ false
      → have_sign (handle_sign_msg net w m s) ≡ have_sign s + 1
  unfolding is_exist_sign
  have_sign-handle_sign_msg m s a new =
      ap length (signs-handle_sign_msg net w m s a new).0
      ∙ ground (arith, length-insert m.sig m (signs s), has-at m.block_hash m.sig s.sign_cache)

  -- Two accepted new sign requests of one node for the prepared block, with different signatures,
  -- raise the number of its signatures by two.
  pub two_signatures_of_one_node :
      (m m' : PbftMsg) (s : State)
      → Accepted net m s
      → Accepted net m' s
      → m.idx ≡ m'.idx
      → m.sig ≢ m'.sig
      → is_exist_sign m s ≡ false
      → is_exist_sign m' s ≡ false
      → have_sign (handle_sign_msg net w m' (handle_sign_msg net w m s)) ≡ have_sign s + 2
  two_signatures_of_one_node m m' s a a' same differ new new' =
      let t = handle_sign_msg net w m s in
      let (added, kept) = signs-handle_sign_msg net w m s a new in
      let b : Accepted net m' t = subst (AcceptedFor net m') (sym kept) a' in
      let absent : is_exist_sign m' t ≡ false =
        is_exist_sign-signs m' t b.1
        ∙ ap (has m'.sig) added
        ∙ has-insert_ne m.sig m'.sig m (signs s) differ
        ∙ sym (is_exist_sign-signs m' s a'.1)
        ∙ new' in
      omega (arith, have_sign-handle_sign_msg m s a new, have_sign-handle_sign_msg m' t b absent)
