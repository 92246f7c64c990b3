-- ===== src/Fleet/Shutdown.antt =====
-- The command center stops the system only when every service has answered its stop.

use fectl.Prelude.{◌≡◌, ◌⊎◌, inl, inr, refl, ◌∙◌, subst, arith, true, List, [], ◌∷◌, All}
use fectl.Service.{ServiceState}
use fectl.Service.Phases.{IsStopped}
use fectl.Fleet.{Fleet, Member, Reach, Status, done, idle}
use fectl.Fleet.Members.{Agrees, IsKept}
use fectl.Service.Stopping
use fectl.Fleet.Counts.{IsCalled, has_exited, pending, total}
use fectl.Command.Shutdown.{State-cases}
use fectl.Fleet.Answers.{Reach-IsOrderly}

-- The service has stopped and so have all its workers, or it has failed.
abbrev pub IsSettled : Member → Type 0
IsSettled m = All IsStopped m.service.workers ⊎ (m.service.state ≡ ServiceState.failed)

over-IsSettled :
    (t : ServiceState) (m : Member)
    → m.service.state ≡ t
    → IsKept m
    → (t ≡ ServiceState.stopped) ⊎ (t ≡ ServiceState.failed)
    → IsSettled m
over-IsSettled t m e k (inl stopped) =
    inl (subst (λ x. Stopping.Agrees x m.service.workers) (e ∙ stopped) k.consistent)
over-IsSettled t m e k (inr failed) = inr (e ∙ failed)

done-IsSettled :
    (t : Status) (m : Member)
    → m.status ≡ t
    → IsKept m
    → IsCalled m
    → pending m.status ≡ 0
    → IsSettled m
unfolding pending
done-IsSettled done m e k c z =
    over-IsSettled m.service.state m refl k (subst (λ st. Agrees st m.service.state) e k.agrees)
done-IsSettled idle m e k c z = absurd (c e)
done-IsSettled _ m e k c z = absurd (ground arith)

all-IsSettled :
    (ms : List Member) → All IsKept ms → All IsCalled ms → total ms ≡ 0 → All IsSettled ms
unfolding total
all-IsSettled [] k c z = tt
all-IsSettled (m ∷ ms) k c z = (
  done-IsSettled m.status m refl k.0 c.0 (omega (arith, z)),
  all-IsSettled ms k.1 c.1 (omega (arith, z)),
)

-- In any course of things from a running master with new services, with the reports of processes, the
-- requests of clients, the stop and the answers to it interleaved in any order: when the command center
-- has stopped the system, every worker of every service is stopped, but for services that have failed.
-- The services are those of the table of the command center.
pub exited-IsSettled : (f : Fleet) → Reach f → has_exited f.orders ≡ true → All IsSettled f.members
exited-IsSettled f r h =
    let k = Reach-IsOrderly r in
    elim (State-cases f.center.state) [
      | inl stops ↦ let (c, z) = k.at_end stops in all-IsSettled f.members k.kept c (z h)
      | inr works ↦ absurd (ground (arith, h, (k.at_work works).1))
    ]
