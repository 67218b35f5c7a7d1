-- ===== src/Tests/Leases.antt =====
-- Leases of the application and of a chat.
use whats_app_mcp_server.Base.{ℕ, inr, some, [], ◌∷◌, text, refl, ◌≡◌, arith, inl}
use whats_app_mcp_server.Redis.Decimal.{inc, IsNumeral}
use whats_app_mcp_server.Redis.Store.{Store, lost}
use whats_app_mcp_server.Redis.Script.{
  run, run_all, snapshots, acquires_app, renews_app, claims, checks,
}
use whats_app_mcp_server.Redis.Epochs.{HasEpochs, run-HasEpochs, takeover_refuses, reclaim_refuses}
use whats_app_mcp_server.Tests.Setup.{
  ports, nothing, owned, waiting, leased, held, evaluation, claim_args,
}

inc_nines : inc (text "1999") ≡ text "2000"
unfolding evaluation
inc_nines = refl

abbrev zero_IsNumeral : IsNumeral (text "0")
zero_IsNumeral = (inr refl, omega arith, omega arith, tt)

abbrev nine_IsNumeral : IsNumeral (text "9")
nine_IsNumeral = (inr refl, omega arith, omega arith, tt)

abbrev ten_IsNumeral : IsNumeral (text "10")
ten_IsNumeral = (inl (omega arith), omega arith, omega arith, (omega arith, omega arith, tt))

abbrev nothing-HasEpochs : HasEpochs nothing
nothing-HasEpochs = record { app = zero_IsNumeral; lease = zero_IsNumeral }

abbrev owned-HasEpochs : HasEpochs owned
owned-HasEpochs = run-HasEpochs ports _ 10 _ (run-HasEpochs ports nothing 0 _ nothing-HasEpochs)

-- At 200 the lease of `a` is over, and `b` takes it; `a` comes back at 210.
abbrev taken : Store ℕ
taken = (run ports owned 200 (acquires_app (text "b") 100)).0

takeover_refuses_example :
    run ports (run_all ports taken ((205, snapshots) ∷ [])) 210 (renews_app (text "a") (text "1") 9)
    ≡ (run_all ports taken ((205, snapshots) ∷ []), lost)
unfolding evaluation
takeover_refuses_example =
    takeover_refuses ports owned taken 200 100 300 210 (text "b") (text "a") (text "1")
      (some (text "2")) owned-HasEpochs refl ((205, snapshots) ∷ [])
      (renews_app (text "a") (text "1") 9) refl (omega arith)

abbrev waiting-HasEpochs : HasEpochs waiting
waiting-HasEpochs = run-HasEpochs ports owned 11 _ owned-HasEpochs

abbrev leased-HasEpochs : HasEpochs leased
leased-HasEpochs = run-HasEpochs ports waiting 12 _ waiting-HasEpochs

-- At 70 the lease of the worker is over, and the event is claimed again.
abbrev reclaimed : Store ℕ
reclaimed = (run ports leased 70 (claims claim_args)).0

reclaim_refuses_example :
    run ports (run_all ports reclaimed []) 75 (checks held) ≡ (run_all ports reclaimed [], lost)
unfolding evaluation
reclaim_refuses_example =
    reclaim_refuses ports leased reclaimed 70 120 75 claim_args (text "1-0") (text "r1")
      (some (text "2")) leased-HasEpochs refl [] (checks held) held refl (omega arith)
