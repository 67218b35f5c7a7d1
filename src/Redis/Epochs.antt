-- ===== src/Redis/Epochs.antt =====
-- redis/scripts.ts: epochs only grow, so a lease that was replaced stays refused.
use whats_app_mcp_server.Base.{
  ℕ, ◌<◌, ◌≤◌, false, Option, none, some, List, [], ◌∷◌, Text, ◌≡◌, ◌⊎◌, ap, subst, arith, inl, inr,
  holds_iff,
}
use whats_app_mcp_server.Redis.Decimal.{inc, value, IsNumeral, inc-value}
use whats_app_mcp_server.Redis.Store.{
  Store, Reply, Work, lost, renewed, claimed, or_zero, app_alive, work,
}
use whats_app_mcp_server.Redis.Claim.{ClaimArgs}
use whats_app_mcp_server.Redis.Script.{
  Ports, Call, init_chat, acquires_app, claims, run, run_all, app_claim,
}
use whats_app_mcp_server.Redis.Fencing.{run_without_app, run_without_work, work_of}

module _ {S : Type 0} (p : Ports S) (s : Store S) (now : ℕ) where
  run-app_epoch :
      (c : Call)
      → ((run p s now c).0.app.epoch ≡ s.app.epoch)
        ⊎ ((run p s now c).0.app.epoch ≡ some (inc (or_zero s.app.epoch)))
  unfolding run
  run-app_epoch (init_chat chat group) = ground arith
  run-app_epoch _ = ground arith

  run-lease_epoch :
      (c : Call)
      → ((run p s now c).0.lease.epoch ≡ s.lease.epoch)
        ⊎ ((run p s now c).0.lease.epoch ≡ some (inc (or_zero s.lease.epoch)))
  unfolding run
  run-lease_epoch (init_chat chat group) = ground arith
  run-lease_epoch _ = ground arith

module _ {S : Type 0} where
  -- The counters of both leases are numerals.
  pub record HasEpochs (s : Store S) : Type 0 where
    pub app : IsNumeral (or_zero s.app.epoch)
    pub lease : IsNumeral (or_zero s.lease.epoch)

  -- How far the counters have come.
  abbrev pub app_epoch : Store S → ℕ
  app_epoch s = value (or_zero s.app.epoch)

  abbrev pub lease_epoch : Store S → ℕ
  lease_epoch s = value (or_zero s.lease.epoch)

  stale_app :
      (s : Store S) (now : ℕ) (owner epoch : Text)
      → value epoch < app_epoch s
      → app_alive s now owner epoch ≡ false
  unfolding app_alive
  stale_app s now owner epoch h = grind (arith, holds_iff s.app.epoch epoch)

  stale_work :
      (s : Store S) (now : ℕ) (w : Work)
      → value w.fence.chat_epoch < lease_epoch s
      → work s now w ≡ none
  unfolding work
  stale_work s now w h = grind (arith, holds_iff s.lease.epoch w.fence.chat_epoch)

-- A counter that was left alone or increased by one.
moved :
    (o o' : Option Text)
    → IsNumeral (or_zero o)
    → (o' ≡ o) ⊎ (o' ≡ some (inc (or_zero o)))
    → (value (or_zero o) ≤ value (or_zero o')) × IsNumeral (or_zero o')
moved o o' n (inl e) = rw e (omega arith, n)
moved o o' n (inr e) = rw e (omega (arith, inc-value (or_zero o) n), (inc-value (or_zero o) n).1)

module _ {S : Type 0} (p : Ports S) where
  pub run-HasEpochs : (s : Store S) (now : ℕ) (c : Call) → HasEpochs s → HasEpochs (run p s now c).0
  run-HasEpochs s now c h = record {
    app = (moved _ _ h.app (run-app_epoch p s now c)).1;
    lease = (moved _ _ h.lease (run-lease_epoch p s now c)).1;
  }

  -- In any history both epochs only grow.
  epochs_grow :
      (s : Store S) (cs : List (ℕ × Call))
      → HasEpochs s
      → (app_epoch s ≤ app_epoch (run_all p s cs))
        × (lease_epoch s ≤ lease_epoch (run_all p s cs))
        × HasEpochs (run_all p s cs)
  unfolding run_all
  epochs_grow s [] h = (omega arith, omega arith, h)
  epochs_grow s ((now, c) ∷ cs) h =
      let (a, l, h') = epochs_grow (run p s now c).0 cs (run-HasEpochs s now c h) in
      (
        omega (arith, a, moved _ _ h.app (run-app_epoch p s now c)),
        omega (arith, l, moved _ _ h.lease (run-lease_epoch p s now c)),
        h',
      )

  -- An application whose epoch is behind the store's is refused, now and after any history.
  superseded_app :
      (s : Store S) (cs : List (ℕ × Call)) (now : ℕ) (c : Call) (owner epoch : Text)
      → HasEpochs s
      → app_claim c ≡ some (owner, epoch)
      → value epoch < app_epoch s
      → run p (run_all p s cs) now c ≡ (run_all p s cs, lost)
  superseded_app s cs now c owner epoch h e old =
      run_without_app p (run_all p s cs) now c owner epoch e
        (stale_app _ now owner epoch (omega (arith, epochs_grow s cs h)))

  -- Work whose chat epoch is behind the store's is refused, now and after any history.
  superseded_work :
      (s : Store S) (cs : List (ℕ × Call)) (now : ℕ) (c : Call) (w : Work)
      → HasEpochs s
      → work_of c ≡ some w
      → value w.fence.chat_epoch < lease_epoch s
      → run p (run_all p s cs) now c ≡ (run_all p s cs, lost)
  superseded_work s cs now c w h e old =
      run_without_work p (run_all p s cs) now c w e
        (stale_work _ now w (omega (arith, epochs_grow s cs h)))

  after-HasEpochs :
      (s t : Store S) (now : ℕ) (c : Call) {r : Reply}
      → HasEpochs s
      → run p s now c ≡ (t, r)
      → HasEpochs t
  after-HasEpochs s t now c h e =
      subst HasEpochs (ap (λ (x : Store S × Reply). x.0) e) (run-HasEpochs s now c h)

  acquired_epoch :
      (s t : Store S) (now ms until : ℕ) (owner : Text) (e : Option Text)
      → run p s now (acquires_app owner ms) ≡ (t, renewed e until)
      → t.app.epoch ≡ some (inc (or_zero s.app.epoch))
  unfolding run
  acquired_epoch s t now ms until owner e r = ground arith

  claimed_epoch :
      (s t : Store S) (now until : ℕ) (a : ClaimArgs) (id raw : Text) (e : Option Text)
      → run p s now (claims a) ≡ (t, claimed id raw e until)
      → t.lease.epoch ≡ some (inc (or_zero s.lease.epoch))
  unfolding run
  claimed_epoch s t now until a id raw e r = ground arith

  -- Once an application has acquired the lease, every call that rests on an epoch from before is
  -- refused and changes nothing, after any further calls by anybody.
  pub takeover_refuses :
      (s t : Store S) (now ms until later : ℕ) (owner old_owner old : Text) (e : Option Text)
      → HasEpochs s
      → run p s now (acquires_app owner ms) ≡ (t, renewed e until)
      → (cs : List (ℕ × Call)) (c : Call) → app_claim c ≡ some (old_owner, old)
      → value old ≤ app_epoch s
      → run p (run_all p t cs) later c ≡ (run_all p t cs, lost)
  takeover_refuses s t now ms until later owner old_owner old e h r cs c claim behind =
      superseded_app t cs later c old_owner old (after-HasEpochs s t now _ h r) claim
        (grind (arith, acquired_epoch s t now ms until owner e r, inc-value _ h.app))

  -- Once the next event is claimed, every call on work of an earlier chat epoch is refused and
  -- changes nothing, after any further calls by anybody.
  pub reclaim_refuses :
      (s t : Store S) (now until later : ℕ) (a : ClaimArgs) (id raw : Text) (e : Option Text)
      → HasEpochs s
      → run p s now (claims a) ≡ (t, claimed id raw e until)
      → (cs : List (ℕ × Call)) (c : Call) (w : Work) → work_of c ≡ some w
      → value w.fence.chat_epoch ≤ lease_epoch s
      → run p (run_all p t cs) later c ≡ (run_all p t cs, lost)
  reclaim_refuses s t now until later a id raw e h r cs c w held behind =
      superseded_work t cs later c w (after-HasEpochs s t now _ h r) held
        (grind (arith, claimed_epoch s t now until a id raw e r, inc-value _ h.lease))
