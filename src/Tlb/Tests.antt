-- ===== src/Tlb/Tests.antt =====
-- Runs of crates/thekernel-axtlb on small domains, and applications of the theorems to them.
use thekernel_ax.Prelude.{
  if◌then◌else◌, ℕ, ◌+◌, ◌≤◌, ◌≡◌, ◌≢◌, ◌↔◌, ◌⊎◌, max, ltb, refl, arith, true, false, not, ◌&&◌,
  ◌==◌, none, some, [], ◌∷◌, get_elem?,
}
use thekernel_ax.Prelude.Result.{ok, err}
use thekernel_ax.Tlb.Maintenance.{tlb, needs_tlb, needs_icache, CpuSet, contains, is_empty}
use thekernel_ax.Tlb.Mailbox.{
  CpuMailbox, new_mailbox, state, cpu_online, raise_requests, Observed, pending_maintenance,
  acknowledge_tlb, acknowledge_icache, try_admit, release_admission, post_reason,
}
use thekernel_ax.Tlb.Domain.{
  TlbShootdown, update, Serviced, service_mailbox, service_maintenance, begin_offline,
  complete_offline, admission_in_progress,
}
use thekernel_ax.Tlb.Request.{
  ShootdownRequest, ShootdownGrace, try_complete, target_pending, mailbox_pending, drop_request,
  target_offline, admission_exhausted,
}
use thekernel_ax.Tlb.Issue.{publish, issue_after_local_maintenance, issue_for_targets}
use thekernel_ax.Tlb.Issue.Spec.{IsIssued}
use thekernel_ax.Tlb.Issue.Targeted.{issue_for_targets-err, issue_for_targets-IsIssued}
use thekernel_ax.Tlb.Issue.Online.{
  issue_after_local_maintenance-IsIssued, issue_after_local_maintenance-err,
}
use thekernel_ax.Tlb.Issue.Completion.{
  IsAcknowledged, try_complete_iff, called_for, service_mailbox_lem,
}
use thekernel_ax.Tlb.Issue.Serviced.{issued-target_pending, issued-service_maintenance}
use thekernel_ax.Tlb.Issue.Lifetime.{issued-complete_offline, issued-drop_request}
use thekernel_ax.Tlb.Interleaving.{
  idle, Handler, loaded_requested_tlb, loaded_completed_tlb, loaded_requested_icache, observed,
  maintained, acknowledged, Local, load_requested_tlb, load_completed_tlb, load_requested_icache,
  load_completed_icache, maintain_local, complete_tlb, World, update_local, allocate, raise,
  service, boot, Steps, stay, then_step,
}
use thekernel_ax.Tlb.Interleaving.Safety.{IsOrdered, Steps-boot-IsOrdered}
use thekernel_ax.Tlb.Interleaving.Sequential.{service_maintenance-Steps}
use thekernel_ax.Tlb.Interleaving.Progress.{try_complete-Steps, try_complete-flushed}

abbrev online : CpuMailbox
online = record new_mailbox { lifecycle = 1 }

-- CPUs 0, 1 and 2; the last is offline.
abbrev domain : TlbShootdown
domain = record { next_epoch = 4; cpus = online ∷ online ∷ new_mailbox ∷ [] }

abbrev only_one : CpuSet
only_one = record { members = false ∷ true ∷ false ∷ [] }

abbrev request : ShootdownRequest
request = record {
  issuer = 0;
  epoch = 5;
  maintenance = tlb;
  targets = only_one;
  kicks = false ∷ true ∷ false ∷ [];
}

abbrev issued_domain : TlbShootdown
issued_domain = record {
  next_epoch = 5;
  cpus =
      record online { lifecycle = 5 }
      ∷ record online { pending_reasons = 1; requested_tlb_epoch = 5 }
      ∷ new_mailbox
      ∷ [];
}

targeted_run : issue_for_targets domain 0 only_one tlb ≡ (issued_domain, ok request)
unfolding issue_for_targets is_empty contains try_admit release_admission post_reason raise_requests
    needs_tlb needs_icache
targeted_run = refl

online_run : issue_after_local_maintenance domain 0 tlb ≡ (issued_domain, ok request)
unfolding issue_after_local_maintenance try_admit release_admission post_reason raise_requests
    needs_tlb needs_icache
online_run = refl

offline_run :
    issue_for_targets domain 0 (record { members = false ∷ true ∷ true ∷ [] }) tlb
    ≡ (domain, err target_offline)
unfolding issue_for_targets is_empty contains try_admit release_admission
offline_run = refl

-- CPU 1 cannot be admitted once more.
abbrev full_domain : TlbShootdown
full_domain = record domain {
  cpus = online ∷ record online { lifecycle = 0xffff_ffff_ffff_fffd } ∷ new_mailbox ∷ [];
}

exhausted_run :
    issue_after_local_maintenance full_domain 0 tlb
    ≡ (record full_domain { next_epoch = 5 }, err admission_exhausted)
unfolding issue_after_local_maintenance try_admit release_admission
exhausted_run = refl

request-IsIssued : IsIssued domain issued_domain request
request-IsIssued =
    (issue_for_targets-IsIssued domain 0 only_one tlb issued_domain request targeted_run).0

issue_for_targets-IsIssued_example :
    IsIssued domain issued_domain request
    × (request.issuer ≡ 0)
    × (request.targets ≡ only_one)
    × (request.maintenance ≡ tlb)
issue_for_targets-IsIssued_example =
    issue_for_targets-IsIssued domain 0 only_one tlb issued_domain request targeted_run

issue_after_local_maintenance-IsIssued_example :
    IsIssued domain issued_domain request
    × (request.issuer ≡ 0)
    × (request.maintenance ≡ tlb)
    × ((cpu : ℕ) (mb : CpuMailbox)
        → get_elem? domain.cpus cpu ≡ some mb
        → contains request.targets cpu ≡ (not (cpu == 0) && (state mb.lifecycle == cpu_online)))
issue_after_local_maintenance-IsIssued_example =
    issue_after_local_maintenance-IsIssued domain 0 tlb issued_domain request online_run

issue_for_targets-err_example : domain ≡ domain
issue_for_targets-err_example =
    issue_for_targets-err domain 0 (record { members = false ∷ true ∷ true ∷ [] }) tlb
      target_offline domain offline_run

issue_after_local_maintenance-err_example :
    (record full_domain { next_epoch = 5 } ≡ full_domain)
    ⊎ ((admission_exhausted ≡ admission_exhausted)
        × (5 ≡ 4 + 1)
        × ((cpu : ℕ) (x : CpuMailbox)
            → get_elem? full_domain.cpus cpu ≡ some x
            → (get_elem? full_domain.cpus cpu ≡ some x)
              ⊎ ((cpu ≢ 0)
                  × (state x.lifecycle ≡ cpu_online)
                  × (get_elem? full_domain.cpus cpu ≡ some (publish tlb (4 + 1) x).0))))
issue_after_local_maintenance-err_example =
    issue_after_local_maintenance-err full_domain 0 tlb admission_exhausted
      (record full_domain { next_epoch = 5 }) exhausted_run

try_complete_iff_example :
    (try_complete issued_domain request ≡ some (record { epoch = 5; maintenance = tlb }))
    ↔ IsAcknowledged issued_domain request
try_complete_iff_example = try_complete_iff issued_domain request

issued-target_pending_example : target_pending issued_domain request 1 ≡ true
unfolding needs_tlb contains
issued-target_pending_example =
    issued-target_pending domain issued_domain request request-IsIssued refl 1 online refl refl
      (omega arith) (omega arith)

issued-service_maintenance_example :
    (d'' : TlbShootdown) × (s : Serviced) × (service_maintenance issued_domain 1 ≡ ok (d'', s))
    × (target_pending d'' request 1 ≡ false)
unfolding contains
issued-service_maintenance_example =
    issued-service_maintenance domain issued_domain request request-IsIssued 1 online refl refl

abbrev draining_domain : TlbShootdown
draining_domain = update issued_domain 0 (record online { lifecycle = 6 })

draining_run : begin_offline issued_domain 0 ≡ ok draining_domain
unfolding begin_offline
draining_run = refl

issued-complete_offline_example :
    (d : TlbShootdown) × (begin_offline issued_domain 0 ≡ ok d)
    × (complete_offline d 0 ≡ err admission_in_progress)
issued-complete_offline_example =
    issued-complete_offline domain issued_domain request request-IsIssued

issued-drop_request_example : get_elem? (drop_request issued_domain request).cpus 0 ≡ some online
issued-drop_request_example =
    issued-drop_request domain issued_domain request request-IsIssued online refl

-- CPU 0 allocates epoch 1 and publishes it to CPU 1, which services it.
abbrev asked : CpuMailbox
asked = record new_mailbox { requested_tlb_epoch = 1 }

abbrev answered : CpuMailbox
answered = record asked { completed_tlb_epoch = 1 }

abbrev published_world : World
published_world = record {
  domain = record { next_epoch = 1; cpus = new_mailbox ∷ asked ∷ [] };
  local = (boot 2).local;
}

abbrev serviced : CpuMailbox → Local → World → World
serviced mb l w = record { domain = update w.domain 1 mb; local = update_local w.local 1 l }

abbrev seen : Observed
seen = record { requested_tlb = 1; completed_tlb = 0; requested_icache = 0; completed_icache = 0 }

abbrev not_flushed : Handler → Local
not_flushed h = record { handler = h; flushed_tlb = 0; flushed_icache = 0 }

abbrev flushed : Handler → Local
flushed h = record { handler = h; flushed_tlb = 1; flushed_icache = 0 }

abbrev observed_world : World
observed_world = serviced asked (not_flushed (observed seen)) (
    serviced asked (not_flushed (loaded_requested_icache 1 0 0)) (
      serviced asked (not_flushed (loaded_completed_tlb 1 0))
        (serviced asked (not_flushed (loaded_requested_tlb 1)) published_world)))

observed-Steps : Steps (boot 2) observed_world
unfolding raise_requests needs_tlb needs_icache
observed-Steps =
    then_step
      (then_step
        (then_step
          (then_step
            (then_step (then_step stay (allocate (omega arith))) (raise 1 tlb 1 refl (omega arith)))
            (service 1 {mb = asked} refl (load_requested_tlb refl)))
          (service 1 {mb = asked} refl (load_completed_tlb refl)))
        (service 1 {mb = asked} refl (load_requested_icache refl)))
      (service 1 {mb = asked} refl (load_completed_icache refl))

abbrev answered_world : World
answered_world =
    serviced answered (flushed (acknowledged tlb seen))
      (serviced asked (flushed (maintained tlb seen)) observed_world)

answered-Steps : Steps (boot 2) answered_world
unfolding pending_maintenance acknowledge_tlb needs_tlb needs_icache
answered-Steps =
    then_step
      (then_step observed-Steps (service 1 {mb = asked} refl (maintain_local {m = tlb} refl refl)))
      (service 1 {mb = asked} refl (complete_tlb {m = tlb} refl))

abbrev first_request : ShootdownRequest
first_request = record {
  issuer = 0;
  epoch = 1;
  maintenance = tlb;
  targets = record { members = false ∷ true ∷ [] };
  kicks = false ∷ true ∷ [];
}

abbrev grace : ShootdownGrace
grace = record { epoch = 1; maintenance = tlb }

not_yet : try_complete observed_world.domain first_request ≡ none
unfolding try_complete contains mailbox_pending needs_tlb needs_icache
not_yet = refl

answered_grace : try_complete answered_world.domain first_request ≡ some grace
unfolding try_complete contains mailbox_pending needs_tlb needs_icache
answered_grace = refl

abbrev later_world : World
later_world = record answered_world { domain = record answered_world.domain { next_epoch = 2 } }

later-Steps : Steps answered_world later_world
later-Steps = then_step stay (allocate (omega arith))

try_complete-flushed_example : (needs_tlb tlb ≡ true → 1 ≤ 1) × (needs_icache tlb ≡ true → 1 ≤ 0)
unfolding contains
try_complete-flushed_example =
    try_complete-flushed 2 first_request grace answered_world answered-Steps answered_grace 1
      answered refl refl

Steps-boot-IsOrdered_example : IsOrdered 1 answered 1 0
Steps-boot-IsOrdered_example = Steps-boot-IsOrdered 2 answered_world answered-Steps 1 answered refl

try_complete-Steps_example : try_complete later_world.domain first_request ≡ some grace
try_complete-Steps_example =
    try_complete-Steps first_request grace answered_world later_world later-Steps answered_grace

service_mailbox_lem_example :
    let s = service_mailbox asked in
    (s.mailbox.completed_tlb_epoch ≡ max asked.completed_tlb_epoch asked.requested_tlb_epoch)
    × (s.mailbox.completed_icache_epoch
        ≡ max asked.completed_icache_epoch asked.requested_icache_epoch)
    × (s.result.completed_tlb_epoch ≡ s.mailbox.completed_tlb_epoch)
    × (s.result.completed_icache_epoch ≡ s.mailbox.completed_icache_epoch)
    × (s.mailbox ≡ record asked {
      completed_tlb_epoch = s.mailbox.completed_tlb_epoch;
      completed_icache_epoch = s.mailbox.completed_icache_epoch;
    })
    × (called_for s.called_with needs_tlb ≡ ltb asked.completed_tlb_epoch asked.requested_tlb_epoch)
    × (called_for s.called_with needs_icache
        ≡ ltb asked.completed_icache_epoch asked.requested_icache_epoch)
    × ((s.called_with ≡ none) ↔ (
        (asked.requested_tlb_epoch ≤ asked.completed_tlb_epoch)
        × (asked.requested_icache_epoch ≤ asked.completed_icache_epoch)))
service_mailbox_lem_example = service_mailbox_lem asked

abbrev answer : Serviced
answer = record {
  mailbox = answered;
  called_with = some tlb;
  result = record {
    completed_tlb_epoch = 1;
    completed_icache_epoch = 0;
    tlb_flush_count = 1;
    icache_flush_count = 0;
  };
}

answered_run :
    service_maintenance published_world.domain 1
    ≡ ok (update published_world.domain 1 answered, answer)
unfolding service_maintenance service_mailbox pending_maintenance acknowledge_tlb acknowledge_icache
    needs_tlb needs_icache
answered_run = refl

service_maintenance-Steps_example :
    (f : ℕ → Local) × Steps published_world
      (record { domain = update published_world.domain 1 answered; local = f })
    × ((f 1).handler ≡ idle)
    × ((f 1).flushed_tlb ≡ (if called_for answer.called_with needs_tlb then 1 else 0))
    × ((f 1).flushed_icache ≡ (if called_for answer.called_with needs_icache then 1 else 0))
service_maintenance-Steps_example =
    service_maintenance-Steps published_world 1 (update published_world.domain 1 answered) answer
      refl answered_run
