-- ===== src/Examples/Process.antt =====
-- The supervisor of a sidecar that is ready at its second start, and not before.
use translator.Prelude.{
  ℕ, ◌+◌, ◌==◌, ◌≡◌, refl, arith, true, false, List, [], ◌∷◌, some, ok, if◌then◌else◌,
}
use translator.Supervisor.{SidecarRuntime, SidecarSupervisor, running, reaped, new_supervisor}
use translator.Supervisor.Starting.{start}
use translator.Supervisor.Laws.{StartOutcome, start-StartOutcome}
use translator.Supervisor.History.{
  Call, starts, shuts, asks, registers, closes, supervised, Sane, supervised-Sane,
}
use translator.Supervisor.Attempts.{Counts, AtMost, start-AtMost}

-- The runtime's state is the number of its starts.
abbrev runtime : SidecarRuntime ℕ
runtime = record {
  start = λ l n. (n + 1, ok tt);
  probe = λ l n. (n, some (ok (if n == 2 then l.generation_id else 99)));
  kill_and_reap = λ n. (n, ok reaped);
  shutdown_and_reap = λ n. (n, ok reaped);
  remove_stale_socket = λ c n. (n, ok tt);
  wait_before_retry = λ k n. (n, ok tt);
  poll_child_state = λ n. (n, ok running);
  fill = λ n. (n, some (171 ∷ 5 ∷ []));
  new_v4 = λ n. (n, n);
}

start-StartOutcome_example : StartOutcome (start runtime (new_supervisor 0))
unfolding new_supervisor
start-StartOutcome_example = start-StartOutcome runtime (new_supervisor 0) refl

-- The second close is not acknowledged.
abbrev calls : List (Call ℕ)
calls =
    starts
    ∷ registers 5
    ∷ registers 6
    ∷ closes 5 (λ n. (n, true))
    ∷ closes 6 (λ n. (n, false))
    ∷ asks
    ∷ shuts
    ∷ []

supervised-Sane_example :
    (s : SidecarSupervisor ℕ) × (supervised runtime (new_supervisor 0) calls ≡ some s) × Sane s
supervised-Sane_example = supervised-Sane runtime 0 calls

runtime-Counts : Counts runtime (λ n. n)
runtime-Counts = record {
  start = λ l n. omega arith;
  probe = λ l n. omega arith;
  kill = λ n. omega arith;
  remove = λ c n. omega arith;
  wait = λ k n. omega arith;
  fill = λ n. omega arith;
  new_v4 = λ n. omega arith;
}

start-AtMost_example : AtMost runtime (λ n. n) runtime-Counts 3 (start runtime (new_supervisor 0))
unfolding new_supervisor
start-AtMost_example = start-AtMost runtime (λ n. n) runtime-Counts (new_supervisor 0)
