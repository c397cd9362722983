-- ===== src/Tests/Core.antt =====
-- A lock command, sent once and again, and the nonces around it.
use lockping_agent.Prelude.{
  true, false, List, [], ◌∷◌, none, ◌≡◌, ◌≢◌, refl, inl, arith, Bytes, codes, bytes_eq,
}
use lockping_agent.Prelude.Int.{ℤ, pos, ◌+ℤ◌, ◌-ℤ◌, scale}
use lockping_agent.Prelude.Maps.{lookup, insert}
use lockping_agent.Wire.{Payload, empty_payload, kind_lock, kind_status_request}
use lockping_agent.Core.Nonce.{new_nonce_cache, prune, add}
use lockping_agent.Core.Nonce.History.{run_adds, run_spec, run_adds-run_spec}
use lockping_agent.Core.Handle.{Core, new, max_skew, second, unix, is_stale, check_freshness}
use lockping_agent.Core.Replay.{Call, run, Refused, replay-Refused}
use lockping_agent.Core.Effects.{replay_at_the_edge}
use lockping_agent.Tests.Toy.{screen}

abbrev core : Core
core = unfold new in new (codes "laptop") (codes "linux")

abbrev at : ℤ → ℤ
at n = scale second n

abbrev command : Payload
command = record empty_payload { kind = kind_lock; nonce = codes "n1"; ts = pos 1000 }

abbrev asking : Payload
asking = record empty_payload { kind = kind_status_request }

abbrev between : List Call
between = record { now = pos 1001000000000; now' = pos 1001000000000; payload = asking } ∷ []

taken : (check_freshness core (pos 1000000000000) (pos 1000000000001) command).1 ≡ none
unfolding new new_nonce_cache check_freshness is_stale unix scale ◌-ℤ◌ add prune lookup insert
    bytes_eq
taken = refl

named : command.nonce ≢ []
named e = cc

edge : unix (pos 1000) +ℤ pos max_skew ≡ pos 1030000000000
unfolding unix scale ◌+ℤ◌
edge = refl

replay-Refused_example :
    let after =
      run screen core false (
        record { now = pos 1000000000000; now' = pos 1000000000001; payload = command }
        ∷ between) in
    Refused screen after.0 after.1 (pos 1002000000000) (pos 1002000000000) command
replay-Refused_example =
    replay-Refused screen core false (pos 1000000000000) (pos 1000000000001) command between
      (pos 1002000000000) (pos 1002000000000) command (unfold new new_nonce_cache in refl)
      (omega arith) refl taken (omega arith, tt) refl refl refl (inl (rw edge (omega arith)))

abbrev calls : List (Bytes × ℤ)
calls =
    (codes "n1", pos 0) ∷ (codes "n1", pos 60) ∷ (codes "n2", pos 61) ∷ (codes "n1", pos 61) ∷ []

run_adds-run_spec_example : run_adds (new_nonce_cache (pos 60)) calls ≡ run_spec (pos 60) [] calls
run_adds-run_spec_example =
    run_adds-run_spec (pos 60) (pos 0) calls
      (omega arith, (omega arith, (omega arith, (omega arith, tt))))

answers : run_adds (new_nonce_cache (pos 60)) calls ≡ true ∷ false ∷ true ∷ true ∷ []
unfolding run_adds new_nonce_cache add prune lookup insert ◌-ℤ◌ bytes_eq
answers = refl

replay_at_the_edge_example :
    let begin = unix command.ts -ℤ pos max_skew in
    let end = unix command.ts +ℤ pos max_skew in
    ((check_freshness core begin begin command).1 ≡ none)
    × ((check_freshness (check_freshness core begin begin command).0 end (end +ℤ pos 1) command).1
        ≡ none)
unfolding new
replay_at_the_edge_example = replay_at_the_edge (codes "laptop") (codes "linux") command named
