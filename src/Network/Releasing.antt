-- ===== src/Network/Releasing.antt =====
-- The calls of a stop and the resources that they give up.
use p4net.Base.{
  ℕ, ◌≡◌, refl, subst, ◌∙◌, Bool, true, false, List, [], ◌∷◌, if◌then◌else◌, arith, Bool-cases, inl,
  inr,
}
use p4net.Base.Text.{Text, text_eq, text_eq_iff}
use p4net.Network.Calls.{
  Call, destroy_namespace, namespace_exists, destroy_veth, poll, terminate, await_process, kill,
  Answer, Log, Net, in_keys,
}
use p4net.Network.Stop.{
  attempt, await_or_kill, end_process, reap, each, release_namespace, release_veth,
}
use p4net.Network.Tracking.{tracked_logged}
use p4net.Network.Resources.{
  Resource, a_veth, same_pair, creates, gives_up, is_held, in_pairs, is_tracked,
}

-- A call that creates nothing does not bring a resource back.
pub not_again :
    (c : Call) (a : Answer) (log : Log) (r : Resource)
    → creates c r ≡ false
    → is_held r log ≡ false
    → is_held r ((c, a) ∷ log) ≡ false
unfolding is_held
not_again c a log r quiet h = ground (arith, quiet, h)

pub given_up :
    (c : Call) (a : Answer) (log : Log) (r : Resource)
    → creates c r ≡ false
    → gives_up c a r ≡ true
    → is_held r ((c, a) ∷ log) ≡ false
unfolding is_held
given_up c a log r quiet h = ground (arith, quiet, h)

module _ (answers : Log → Call → Answer) where
  -- What is not held stays so.
  unfoldable pub IsQuiet : (Net → Net) → Type 0
  IsQuiet f = (n : Net) (r : Resource) → is_held r n.log ≡ false → is_held r (f n).log ≡ false

  pub attempt-IsQuiet :
      (c : Call) → ((r : Resource) → creates c r ≡ false) → IsQuiet (attempt answers c)
  unfolding IsQuiet
  attempt-IsQuiet c quiet n r h = not_again c (answers n.log c) n.log r (quiet r) h

  either-IsQuiet :
      (b : Bool) (f g : Net → Net) → IsQuiet f → IsQuiet g → IsQuiet (λ n. if b then f n else g n)
  unfolding IsQuiet
  either-IsQuiet true f g h q n r e = h n r e
  either-IsQuiet false f g h q n r e = q n r e

  branch_quiet :
      (b : Bool) (r : Resource) (m k : Net)
      → is_held r m.log ≡ false
      → is_held r k.log ≡ false
      → is_held r (if b then m else k).log ≡ false
  branch_quiet true r m k h q = h
  branch_quiet false r m k h q = q

  await_or_kill-IsQuiet : (p : ℕ) → IsQuiet (await_or_kill answers p)
  unfolding IsQuiet await_or_kill creates
  await_or_kill-IsQuiet p n r h =
      let waited = not_again (await_process p) (answers n.log (await_process p)) n.log r refl h in
      branch_quiet _ r _ _ (not_again (kill p) _ _ r refl waited) waited

  end_process-IsQuiet : (p : ℕ) → IsQuiet (end_process answers p)
  unfolding IsQuiet end_process creates
  end_process-IsQuiet p n r h =
      let ended = not_again (terminate p) (answers n.log (terminate p)) n.log r refl h in
      branch_quiet _ r _ _ ended (await_or_kill-IsQuiet p _ r ended)

  pub reap-IsQuiet : (p : ℕ) → IsQuiet (reap answers p)
  unfolding IsQuiet reap creates
  reap-IsQuiet p n r h =
      let asked = not_again (poll p) (answers n.log (poll p)) n.log r refl h in
      branch_quiet _ r _ _ (end_process-IsQuiet p _ r asked) asked

  pub each-IsQuiet :
      {A : Type 0} (f : A → Net → Net) (xs : List A)
      → ((x : A) → IsQuiet (f x))
      → IsQuiet (each answers f xs)
  unfolding IsQuiet each
  each-IsQuiet f [] q n r h = h
  each-IsQuiet f (x ∷ xs) q n r h = each-IsQuiet f xs q (f x n) r (q x n r h)

  pub release_namespace-IsQuiet : (k : Text) → IsQuiet (release_namespace answers k)
  unfolding IsQuiet release_namespace creates
  release_namespace-IsQuiet k n r h =
      let asked =
        not_again (namespace_exists k) (answers n.log (namespace_exists k)) n.log r refl h in
      branch_quiet _ r _ _ (not_again (destroy_namespace k) _ _ r refl asked) asked

  pub held_back :
      (f : Net → Net) (n : Net) (r : Resource)
      → IsQuiet f
      → is_held r (f n).log ≡ true
      → is_held r n.log ≡ true
  unfolding IsQuiet
  held_back f n r quiet h = elim (Bool-cases (is_held r n.log)) [
    | inl held ↦ held
    | inr free ↦ absurd (ground (arith, h, quiet n r free))
  ]

  -- What is tracked stays so.
  unfoldable pub IsFrame : (Net → Net) → Type 0
  IsFrame f = (n : Net) (r : Resource) → is_tracked r (f n) ≡ is_tracked r n

  branch_frame :
      (b : Bool) (r : Resource) (m k n : Net)
      → is_tracked r m ≡ is_tracked r n
      → is_tracked r k ≡ is_tracked r n
      → is_tracked r (if b then m else k) ≡ is_tracked r n
  branch_frame true r m k n h q = h
  branch_frame false r m k n h q = q

  pub attempt-IsFrame : (c : Call) → IsFrame (attempt answers c)
  unfolding IsFrame
  attempt-IsFrame c n r = tracked_logged r n ((c, answers n.log c) ∷ n.log)

  await_or_kill-IsFrame : (p : ℕ) → IsFrame (await_or_kill answers p)
  unfolding IsFrame await_or_kill
  await_or_kill-IsFrame p n r =
      let waited = attempt-IsFrame (await_process p) n r in
      branch_frame _ r _ _ n
        (attempt-IsFrame (kill p) (attempt answers (await_process p) n) r ∙ waited) waited

  end_process-IsFrame : (p : ℕ) → IsFrame (end_process answers p)
  unfolding IsFrame end_process
  end_process-IsFrame p n r =
      let ended = attempt-IsFrame (terminate p) n r in
      branch_frame _ r _ _ n ended
        (await_or_kill-IsFrame p (attempt answers (terminate p) n) r ∙ ended)

  pub reap-IsFrame : (p : ℕ) → IsFrame (reap answers p)
  unfolding IsFrame reap
  reap-IsFrame p n r =
      let asked = attempt-IsFrame (poll p) n r in
      branch_frame _ r _ _ n (end_process-IsFrame p (attempt answers (poll p) n) r ∙ asked) asked

  pub release_namespace-IsFrame : (k : Text) → IsFrame (release_namespace answers k)
  unfolding IsFrame release_namespace
  release_namespace-IsFrame k n r =
      let asked = attempt-IsFrame (namespace_exists k) n r in
      branch_frame _ r _ _ n
        (attempt-IsFrame (destroy_namespace k) (attempt answers (namespace_exists k) n) r ∙ asked)
        asked

  pub each-IsFrame :
      {A : Type 0} (f : A → Net → Net) (xs : List A)
      → ((x : A) → IsFrame (f x))
      → IsFrame (each answers f xs)
  unfolding IsFrame each
  each-IsFrame f [] h n r = refl
  each-IsFrame f (x ∷ xs) h n r = each-IsFrame f xs h (f x n) r ∙ h x n r

  -- Each of the keys is given up on the way.
  pub keys-gone :
      (f : Text → Net → Net) (make : Text → Resource)
      → ((k : Text) → IsQuiet (f k))
      → ((k : Text) (n : Net) → is_held (make k) (f k n).log ≡ false)
      → (ks : List Text) (k : Text) (n : Net) → in_keys k ks ≡ true
      → is_held (make k) (each answers f ks n).log ≡ false
  unfolding each in_keys IsQuiet
  keys-gone f make quiet gone [] k n h = cc
  keys-gone f make quiet gone (j ∷ ks) k n h = elim (Bool-cases (text_eq j k)) [
    | inl same ↦
        each-IsQuiet f ks quiet (f j n) (make k)
          (subst (λ x. is_held (make x) (f j n).log ≡ false) ((text_eq_iff j k).0 same) (gone j n))
    | inr other ↦ keys-gone f make quiet gone ks k (f j n) (rw other at h)
  ]

  pub pairs-gone :
      (ps : List (Text × Text)) (a b : Text) (n : Net)
      → in_pairs a b ps ≡ true
      → is_held (a_veth a b) (each answers (release_veth answers) ps n).log ≡ false
  unfolding each in_pairs creates gives_up IsQuiet
  pairs-gone [] a b n h = cc
  pairs-gone ((c, d) ∷ ps) a b n h = elim (Bool-cases (same_pair c d a b)) [
    | inl same ↦
        each-IsQuiet (release_veth answers) ps
          (λ p. attempt-IsQuiet (destroy_veth p.0 p.1) (λ r. refl)) (release_veth answers (c, d) n)
          (a_veth a b)
          (given_up (destroy_veth c d) (answers n.log (destroy_veth c d)) n.log (a_veth a b) refl
            same)
    | inr other ↦ pairs-gone ps a b (release_veth answers (c, d) n) (rw other at h)
  ]
