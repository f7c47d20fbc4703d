-- ===== src/Tests/Leadership.antt =====
-- Leadership on the server of the tests.
use pulse.Prelude.{◌≡◌, ◌≢◌, ◌<◌, refl, ok, err, arith}
use pulse.Coordination.Types.{LeaderLease, acquired, renewed, follower, stale_owner}
use pulse.Coordination.Client.{up, no_reply, no_connection, elapsed, invoke, duration_ms}
use pulse.Coordination.Leader.{
  Elector, new, acquire, acquire_script, acquire_outcome, renew, relinquish,
}
use pulse.Coordination.Leader.Exclusion.{
  Activity, idle, acquiring, renewing, waiting, leader_excludes, former_leader_fenced,
}
use pulse.Coordination.Leader.Renewal.{leader_renews}
use pulse.Coordination.Leader.Fences.{fences_increase}
use pulse.Tests.Server.{Server, server, server_laws, empty_server, texts_differ}

-- `RedisLeaderElector::new` for five seconds.
abbrev pub elector : Elector
elector = record {
  lock_key = "leader";
  fence_key = "leader:fence";
  node_id = "node-a";
  lock_ttl = 5000000000;
}

elector_is_new : new "leader" "node-a" 5000 ≡ elector
unfolding new
elector_is_new = refl

abbrev pub rival : Elector
rival = record elector { node_id = "node-b" }

abbrev pub lease : LeaderLease
lease = record {
  lock_key = "leader";
  node_id = "node-a";
  owner_token = "node-a:1";
  fencing_token = 1;
  expires_at_unix_ms = 1700000005123;
  ttl = 5000000000;
}

abbrev pub former : LeaderLease
former = record lease { node_id = "node-b"; owner_token = "node-b:0" }

unfoldable pub led : Server
led = (acquire server elector "node-a:1" up empty_server).0

pub first_acquisition :
    acquire server elector "node-a:1" up empty_server ≡ (led, ok (acquired lease))
unfolding acquire acquire_script acquire_outcome invoke duration_ms led
first_acquisition = refl

-- The rival fails to acquire, waits, and tries an old lease.
unfoldable pub rivals : Server
unfolding led
rivals =
    (renew server rival up former (server.elapse 2000 (acquire server rival "node-b:1" up led).0)).0

pub rivalry :
    Activity server server_laws "leader" "leader:fence" (λ o. o ≢ "node-a:1") 2000 led rivals
unfolding rivals
rivalry =
    acquiring rival "node-b:1" up refl refl
      (waiting 2000 (renewing rival former up refl (texts_differ "node-b:0" "node-a:1" refl) idle))

leader_excludes_example :
    acquire server rival "node-b:2" up rivals ≡ (rivals, ok (follower 3000000000))
leader_excludes_example =
    leader_excludes server server_laws elector "node-a:1" empty_server led rivals lease 2000 rival
      "node-b:2" 5000 first_acquisition rivalry (omega arith) refl (unfold duration_ms in refl)

-- Three seconds after the leader's renewal, of which the first lease would not have left any.
renewed_leader : Server
renewed_leader = server.elapse 3000 (renew server elector up lease rivals).0

leader_renews_example :
    ((renew server elector up lease rivals).1
      ≡ ok (renewed (record lease { expires_at_unix_ms = 1700000007123 })))
    × (acquire server rival "node-b:3" up renewed_leader
        ≡ (renewed_leader, ok (follower 2000000000)))
unfolding rivals renewed_leader renew duration_ms pulse.Coordination.Client.fence_arg invoke
    pulse.Coordination.Leader.renew_script acquire acquire_script
leader_renews_example =
    leader_renews server server_laws elector "node-a:1" empty_server led rivals renewed_leader lease
      2000 3000 rival "node-b:3" 5000 first_acquisition rivalry (omega arith) (omega arith)
      (waiting 3000 idle) (omega arith) refl (unfold duration_ms in refl)

former_leader_fenced_example :
    (renew server rival up former rivals ≡ (rivals, err (stale_owner "leader_renew")))
    × (relinquish server rival up former rivals ≡ (rivals, err (stale_owner "leader_relinquish")))
former_leader_fenced_example =
    former_leader_fenced server server_laws elector "node-a:1" empty_server led rivals lease 2000
      rival former 5000 first_acquisition rivalry (omega arith) refl refl
      (texts_differ "node-b:0" "node-a:1" refl) (omega arith) (unfold duration_ms in refl)

-- After the lease has run out, with a renewal whose reply was lost on the way.
abbrev after_expiry : Server
after_expiry = server.elapse 9000 (renew server elector (no_connection elapsed) lease led).0

abbrev second_lease : LeaderLease
second_lease = record former {
  owner_token = "node-b:3";
  fencing_token = 2;
  expires_at_unix_ms = 1700000014123;
}

second_acquisition :
    acquire server rival "node-b:3" up after_expiry
    ≡ ((acquire server rival "node-b:3" up after_expiry).0, ok (acquired second_lease))
unfolding acquire acquire_script acquire_outcome invoke duration_ms renew led
    pulse.Coordination.Client.fence_arg
second_acquisition = refl

fences_increase_example : lease.fencing_token < second_lease.fencing_token
fences_increase_example =
    fences_increase server server_laws elector "node-a:1" empty_server led after_expiry
      (acquire server rival "node-b:3" up after_expiry).0 lease 9000 rival "node-b:3" second_lease
      refl first_acquisition
      (renewing elector lease (no_connection elapsed) refl tt (waiting 9000 idle)) refl
      second_acquisition
