-- ===== src/Network/Tracking.antt =====
-- Which changes of a network keep track of the resources that it holds.
use p4net.Base.{
  ℕ, ◌≡◌, refl, subst, ◌∙◌, Bool, true, false, not, ◌&&◌, ◌||◌, Option, List, [], ◌∷◌, ◌++◌,
  if◌then◌else◌, arith, Bool-cases, inl, inr, Result, ok, err,
}
use p4net.Base.Text.{Text, text_eq, text_eq_iff}
use p4net.Runtime.Bmv2.{SwitchProcess}
use p4net.Network.Calls.{
  Call, create_namespace, create_veth, start_bmv2, connect_client, Answer, Log, Failure,
  call_raised, Net, in_keys, add_key, Act, give, fail, continue, ◌>>=◌, ◌>>◌, update, for_each,
  lifted, has_raised, do_call,
}
use p4net.Network.Resources.{
  Resource, a_namespace, a_process, a_client, a_veth, creates, is_held, in_pairs, is_tracked,
  Tracks,
}

in_keys-append :
    (j : Text) (ks js : List Text) → in_keys j (ks ++ js) ≡ (in_keys j ks || in_keys j js)
unfolding in_keys
in_keys-append j [] js = refl
in_keys-append j (k ∷ ks) js = ground (arith, in_keys-append j ks js)

in_keys-add_key : (k : Text) (ks : List Text) → in_keys k (add_key k ks) ≡ true
unfolding add_key in_keys
in_keys-add_key k ks = elim (Bool-cases (in_keys k ks)) [
  | inl here ↦ rw here here
  | inr absent ↦ rw absent (ground (arith, in_keys-append k ks (k ∷ []), text_eq_iff k k))
]

in_keys-add_key_other :
    (k j : Text) (ks : List Text) → in_keys j ks ≡ true → in_keys j (add_key k ks) ≡ true
unfolding add_key in_keys
in_keys-add_key_other k j ks h = elim (Bool-cases (in_keys k ks)) [
  | inl here ↦ rw here h
  | inr absent ↦ rw absent (ground (arith, in_keys-append j ks (k ∷ []), h))
]

in_pairs-append :
    (a b : Text) (ps qs : List (Text × Text))
    → in_pairs a b (ps ++ qs) ≡ (in_pairs a b ps || in_pairs a b qs)
unfolding in_pairs
in_pairs-append a b [] qs = refl
in_pairs-append a b ((c, d) ∷ ps) qs = ground (arith, in_pairs-append a b ps qs)

-- A call that creates nothing leaves no new resource behind.
held_before :
    (c : Call) (a : Answer) (log : Log) (r : Resource)
    → is_held r ((c, a) ∷ log) ≡ true
    → (creates c r && not (has_raised a)) ≡ false
    → is_held r log ≡ true
unfolding is_held
held_before c a log r h quiet = ground (arith, h, quiet)

pub tracked_logged :
    (r : Resource) (n : Net) (log : Log) → is_tracked r (record n { log = log }) ≡ is_tracked r n
unfolding is_tracked
tracked_logged (a_namespace k) n log = refl
tracked_logged (a_process k) n log = refl
tracked_logged (a_client k) n log = refl
tracked_logged (a_veth a b) n log = refl

abbrev pub with_namespace : Text → Net → Net
with_namespace k n = record n { namespaces = add_key k n.namespaces }

abbrev pub with_switch : Text → Net → Net
with_switch k n = record n { switches = add_key k n.switches }

abbrev pub with_client : Text → Net → Net
with_client k n = record n { clients = add_key k n.clients }

abbrev pub with_veth : Text → Text → Net → Net
with_veth a b n = record n { veths = n.veths ++ ((a, b) ∷ []) }

pub with_namespace-more :
    (k : Text) (n : Net) (r : Resource)
    → is_tracked r n ≡ true
    → is_tracked r (with_namespace k n) ≡ true
unfolding is_tracked
with_namespace-more k n (a_namespace j) h = in_keys-add_key_other k j n.namespaces h
with_namespace-more k n (a_process j) h = h
with_namespace-more k n (a_client j) h = h
with_namespace-more k n (a_veth c d) h = h

pub with_switch-more :
    (k : Text) (n : Net) (r : Resource)
    → is_tracked r n ≡ true
    → is_tracked r (with_switch k n) ≡ true
unfolding is_tracked
with_switch-more k n (a_namespace j) h = h
with_switch-more k n (a_process j) h = in_keys-add_key_other k j n.switches h
with_switch-more k n (a_client j) h = h
with_switch-more k n (a_veth c d) h = h

pub with_client-more :
    (k : Text) (n : Net) (r : Resource)
    → is_tracked r n ≡ true
    → is_tracked r (with_client k n) ≡ true
unfolding is_tracked
with_client-more k n (a_namespace j) h = h
with_client-more k n (a_process j) h = h
with_client-more k n (a_client j) h = in_keys-add_key_other k j n.clients h
with_client-more k n (a_veth c d) h = h

pub with_veth-more :
    (a b : Text) (n : Net) (r : Resource)
    → is_tracked r n ≡ true
    → is_tracked r (with_veth a b n) ≡ true
unfolding is_tracked
with_veth-more a b n (a_namespace j) h = h
with_veth-more a b n (a_process j) h = h
with_veth-more a b n (a_client j) h = h
with_veth-more a b n (a_veth c d) h = ground (arith, in_pairs-append c d n.veths ((a, b) ∷ []), h)

same_key : (k j : Text) (ks : List Text) → text_eq k j ≡ true → in_keys j (add_key k ks) ≡ true
same_key k j ks e =
    subst (λ x. in_keys x (add_key k ks) ≡ true) ((text_eq_iff k j).0 e) (in_keys-add_key k ks)

pub with_namespace-new :
    (k : Text) (n : Net) (r : Resource)
    → creates (create_namespace k) r ≡ true
    → is_tracked r (with_namespace k n) ≡ true
unfolding creates is_tracked in_pairs
with_namespace-new k n (a_namespace j) e = same_key k j n.namespaces e
with_namespace-new k n (a_process j) e = cc
with_namespace-new k n (a_client j) e = cc
with_namespace-new k n (a_veth c d) e = cc

pub with_switch-new :
    (s : SwitchProcess) (n : Net) (r : Resource)
    → creates (start_bmv2 s) r ≡ true
    → is_tracked r (with_switch s.name n) ≡ true
unfolding creates is_tracked in_pairs
with_switch-new s n (a_namespace j) e = cc
with_switch-new s n (a_process j) e = same_key s.name j n.switches e
with_switch-new s n (a_client j) e = cc
with_switch-new s n (a_veth c d) e = cc

pub with_client-new :
    (k : Text) (now : ℕ) (n : Net) (r : Resource)
    → creates (connect_client k now) r ≡ true
    → is_tracked r (with_client k n) ≡ true
unfolding creates is_tracked in_pairs
with_client-new k now n (a_namespace j) e = cc
with_client-new k now n (a_process j) e = cc
with_client-new k now n (a_client j) e = same_key k j n.clients e
with_client-new k now n (a_veth c d) e = cc

pub with_veth-new :
    (a b : Text) (x y : Option Text) (n : Net) (r : Resource)
    → creates (create_veth a b x y) r ≡ true
    → is_tracked r (with_veth a b n) ≡ true
unfolding creates is_tracked in_pairs
with_veth-new a b x y n (a_namespace j) e = cc
with_veth-new a b x y n (a_process j) e = cc
with_veth-new a b x y n (a_client j) e = cc
with_veth-new a b x y n (a_veth c d) e =
    ground (arith, in_pairs-append c d n.veths ((a, b) ∷ []), e)

module _ (answers : Log → Call → Answer) where
  unfoldable pub Keeps : {A : Type 0} → Act A → Type 0
  Keeps act = (n : Net) → Tracks n → Tracks (act n).0

  pub give-Keeps : {A : Type 0} (a : A) → Keeps (give a)
  unfolding Keeps
  give-Keeps a n h = h

  pub fail-Keeps : (A : Type 0) (e : Failure) → Keeps {A = A} (fail e)
  unfolding Keeps
  fail-Keeps A e n h = h

  pub lifted-Keeps : {A E : Type 0} (f : E → Failure) (r : Result E A) → Keeps (lifted f r)
  lifted-Keeps f (ok a) = give-Keeps a
  lifted-Keeps f (err e) = fail-Keeps _ (f e)

  continue-Tracks :
      {A B : Type 0} (r : Net × Result Failure A) (next : A → Act B)
      → Tracks r.0
      → ((a : A) → Keeps (next a))
      → Tracks (continue r next).0
  unfolding Keeps
  continue-Tracks (n, ok a) next h q = q a n h
  continue-Tracks (n, err e) next h q = h

  pub then-Keeps :
      {A B : Type 0} (act : Act A) (next : A → Act B)
      → Keeps act
      → ((a : A) → Keeps (next a))
      → Keeps (act >>= next)
  unfolding Keeps
  then-Keeps act next h q n tracks = continue-Tracks (act n) next (h n tracks) q

  pub for_each-Keeps :
      {A : Type 0} (xs : List A) (act : A → Act (Unit {0}))
      → ((x : A) → Keeps (act x))
      → Keeps (for_each xs act)
  unfolding for_each
  for_each-Keeps [] act h = give-Keeps tt
  for_each-Keeps (x ∷ xs) act h =
      then-Keeps (act x) (λ _. for_each xs act) (h x) (λ _. for_each-Keeps xs act h)

  -- A call that creates nothing.
  pub call-Keeps : (c : Call) → ((r : Resource) → creates c r ≡ false) → Keeps (do_call answers c)
  unfolding Keeps Tracks do_call
  call-Keeps c quiet n tracks r h =
      tracked_logged r n ((c, answers n.log c) ∷ n.log)
      ∙ tracks r (held_before c (answers n.log c) n.log r h (rw (quiet r) refl))

  -- A change that neither forgets a resource nor touches the log.
  unfoldable pub IsAddition : (Net → Net) → Type 0
  IsAddition f =
      ((n : Net) → (f n).log ≡ n.log)
      × ((n : Net) (r : Resource) → is_tracked r n ≡ true → is_tracked r (f n) ≡ true)

  pub update-Keeps : (f : Net → Net) → IsAddition f → Keeps (update f)
  unfolding Keeps Tracks IsAddition
  update-Keeps f (same, more) n tracks r h =
      more n r (tracks r (subst (λ log. is_held r log ≡ true) (same n) h))

  -- What follows a call, by whether it raised.
  after-Tracks :
      {A : Type 0} (b : Bool) (e : Failure) (m : Net) (f : Net → Net) (next : Act A)
      → (b ≡ true → Tracks m)
      → (b ≡ false → Tracks (f m))
      → Keeps next
      → Tracks (continue (m, if b then err e else ok tt) (λ _. update f >> next)).0
  unfolding Keeps
  after-Tracks true e m f next raises returns after = raises refl
  after-Tracks false e m f next raises returns after = after (f m) (returns refl)

  -- A creation, which is tracked at once.
  pub create-Keeps :
      {A : Type 0} (c : Call) (f : Net → Net) (next : Act A)
      → IsAddition f
      → ((n : Net) (r : Resource) → creates c r ≡ true → is_tracked r (f n) ≡ true)
      → Keeps next
      → Keeps (do_call answers c >> (update f >> next))
  unfolding Keeps Tracks IsAddition do_call
  create-Keeps c f next (same, more) new after n tracks =
      let a = answers n.log c in
      let m = record n { log = (c, a) ∷ n.log } in
      after-Tracks (has_raised a) (call_raised c) m f next
        (λ raises r h.
          tracked_logged r n ((c, a) ∷ n.log)
          ∙ tracks r (held_before c a n.log r h (ground (arith, raises))))
        (λ returns r h. elim (Bool-cases (creates c r)) [
          | inl made ↦ new m r made
          | inr other ↦ more m r (
              tracked_logged r n ((c, a) ∷ n.log)
              ∙ tracks r (
                  held_before c a n.log r (subst (λ log. is_held r log ≡ true) (same m) h)
                    (ground (arith, other))))
        ])
        after
