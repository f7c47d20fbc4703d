-- ===== src/Tests/Leases.antt =====
-- Execution leases on the server of the tests.
use pulse.Prelude.{ℕ, String, ◌≡◌, ◌≢◌, refl, true, false, ok, err, arith, Duration}
use pulse.Coordination.Types.{
  result_published, retry_published, ExecutionClaim, ExecutionLease, lease_acquired,
  already_completed, busy, stale_owner, invalid_state, CompletedOutcome, as_str,
}
use pulse.Coordination.Client.{up, invoke, duration_ms}
use pulse.Coordination.Execution.Store.{ExecutionStore, new, running_retention, key_for}
use pulse.Coordination.Execution.Claim.{claim, claim_script, claim_outcome}
use pulse.Coordination.Execution.Settle.{
  renew, complete, complete_script, complete_outcome, release,
}
use pulse.Coordination.Execution.Exclusion.{claim_excludes}
use pulse.Coordination.Execution.Fencing.{claim_recovers, other_owner_fenced}
use pulse.Coordination.Execution.Completion.{claim_after_complete, complete_again, complete_other}
use pulse.Tests.Server.{Server, server, server_laws, empty_server, texts_differ}

-- `RedisIdempotencyStore::new` for a minute.
abbrev store : ExecutionStore
store = record { key_prefix = "exec"; lease_ttl = 30000000000; terminal_ttl = 60000000000 }

store_is_new : new "exec" 60000000000 ≡ store
unfolding new
store_is_new = refl

abbrev job : ExecutionClaim
job = record { execution_key = "run:slice-0-of-2"; attempt = 1 }

abbrev lease : ExecutionLease
lease = record {
  execution_key = "run:slice-0-of-2";
  attempt = 1;
  owner_token = "first";
  expires_at_unix_ms = 1700000030123;
  ttl = 30000000000;
  recovered = false;
}

abbrev former : ExecutionLease
former = record lease { owner_token = "former" }

abbrev claimed : Server
unfolding claim claim_script claim_outcome invoke duration_ms running_retention key_for
claimed = (claim server store "first" up job empty_server).0

first_claim : claim server store "first" up job empty_server ≡ (claimed, ok (lease_acquired lease))
unfolding claim claim_script claim_outcome invoke duration_ms running_retention key_for
    pulse.Prelude.is_blank
first_claim = refl

abbrev done : CompletedOutcome
done = record { outcome = result_published; completed_at_unix_ms = 1700000005123 }

abbrev completed : Server
unfolding complete complete_script complete_outcome invoke duration_ms key_for as_str
completed = (complete server store up lease result_published (server.elapse 5000 claimed)).0

completion :
    complete server store up lease result_published (server.elapse 5000 claimed)
    ≡ (completed, ok done)
unfolding complete complete_script complete_outcome invoke duration_ms key_for as_str claimed
    pulse.Prelude.is_blank pulse.Prelude.decimal
completion = refl

claim_excludes_example :
    claim server store "second" up job (server.elapse 1000 claimed)
    ≡ (server.elapse 1000 claimed, ok (busy 29000000000))
claim_excludes_example =
    claim_excludes server server_laws store "first" "second" job empty_server claimed lease 1000
      first_claim (omega arith)

claim_recovers_example :
    (claim server store "second" up job (server.elapse 40000 claimed)).1
    ≡ ok (
        lease_acquired (record lease {
          owner_token = "second";
          expires_at_unix_ms = 1700000070123;
          recovered = true;
        }))
unfolding claimed pulse.Prelude.is_blank
claim_recovers_example =
    claim_recovers server server_laws store "first" "second" job empty_server claimed lease 40000
      first_claim (omega arith) (unfold running_retention in omega arith)

other_owner_fenced_example :
    (renew server store up former (server.elapse 7 claimed)
      ≡ (server.elapse 7 claimed, err (stale_owner "execution_renew")))
    × (complete server store up former retry_published (server.elapse 7 claimed)
        ≡ (server.elapse 7 claimed, err (stale_owner "execution_complete")))
    × (release server store up former (server.elapse 7 claimed)
        ≡ (server.elapse 7 claimed, err (stale_owner "execution_release")))
other_owner_fenced_example =
    other_owner_fenced server server_laws store "first" job empty_server claimed lease former
      retry_published 7 60000 first_claim (unfold running_retention in omega arith) refl refl
      (texts_differ "former" "first" refl) (unfold duration_ms in refl)

claim_after_complete_example :
    claim server store "second" up job (server.elapse 10 completed)
    ≡ (server.elapse 10 completed, ok (already_completed done))
unfolding completed claimed pulse.Prelude.is_blank pulse.Prelude.decimal
claim_after_complete_example =
    claim_after_complete server server_laws store lease result_published
      (server.elapse 5000 claimed) completed done 10 completion (unfold key_for in refl) "second"
      refl (unfold duration_ms in refl) (unfold duration_ms running_retention in refl)

complete_again_example :
    complete server store up lease result_published (server.elapse 10 completed)
    ≡ (server.elapse 10 completed, ok done)
unfolding completed claimed pulse.Prelude.is_blank pulse.Prelude.decimal
complete_again_example =
    complete_again server server_laws store lease result_published (server.elapse 5000 claimed)
      completed done 10 completion (unfold key_for in refl)

complete_other_example :
    complete server store up lease retry_published (server.elapse 10 completed) ≡ (
      server.elapse 10 completed,
      err (invalid_state "execution_complete" "execution already has a different terminal outcome"),
    )
unfolding completed claimed pulse.Prelude.is_blank pulse.Prelude.decimal
complete_other_example =
    complete_other server server_laws store lease result_published (server.elapse 5000 claimed)
      completed done 10 completion (unfold key_for in refl) retry_published (ground arith)
