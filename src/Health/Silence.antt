-- ===== src/Health/Silence.antt =====
-- What a monitor does after it was stopped.
use indian_sim_sms_gateway.Prelude.{
  ℕ, ◌≡◌, refl, ap, ◌∙◌, false, Option, none, some, List, [], ◌∷◌, get_elem?, inl, inr,
  Option-cases,
}
use indian_sim_sms_gateway.Prelude.Clock.{Time}
use indian_sim_sms_gateway.Health.Monitor.{HealthMonitor}
use indian_sim_sms_gateway.Health.Watch.{
  Task, created, sleeping, alerting, ended, Watch, stop, resume, resume_all,
}

resume-silent :
    (t : Option Task) (now : Time) (i : ℕ) (w : Watch)
    → w.monitor.running ≡ false
    → ((resume t now i w).0.monitor ≡ w.monitor) × ((resume t now i w).1 ≡ [])
unfolding resume
resume-silent none now i w off = (refl, refl)
resume-silent (some created) now i w off = rw off (refl, refl)
resume-silent (some sleeping) now i w off = rw off (refl, refl)
resume-silent (some alerting) now i w off = (refl, refl)
resume-silent (some ended) now i w off = (refl, refl)

resume_all-silent :
    (ts : List (Time × ℕ)) (w : Watch)
    → w.monitor.running ≡ false
    → ((resume_all ts w).0.monitor ≡ w.monitor) × ((resume_all ts w).1 ≡ [])
unfolding resume_all
resume_all-silent [] w off = (refl, refl)
resume_all-silent ((now, i) ∷ ts) w off =
    let (w', fx) = resume (get_elem? w.tasks i) now i w in
    let (same, quiet) = resume-silent (get_elem? w.tasks i) now i w off in
    let (later, nothing) =
      resume_all-silent ts w' (ap (λ (h : HealthMonitor). h.running) same ∙ off) in
    (later ∙ same, rw (quiet, nothing) refl)

stop-monitor : (w : Watch) → (stop w).monitor ≡ record w.monitor { running = false }
unfolding stop
stop-monitor w = elim (Option-cases w.check_task) [ inl e ↦ rw e refl | inr (i, e) ↦ rw e refl ]

-- After `stop`, whatever tasks of the check loop are left, also one of an earlier `start`, and however
-- they go on: none of them evaluates or raises an alert any more, and the monitor stays as it is.
pub stop-silences :
    (ts : List (Time × ℕ)) (w : Watch)
    → let (w', fx) = resume_all ts (stop w) in
      (w'.monitor ≡ record w.monitor { running = false }) × (fx ≡ [])
stop-silences ts w =
    let off = ap (λ (h : HealthMonitor). h.running) (stop-monitor w) in
    let (same, quiet) = resume_all-silent ts (stop w) off in (same ∙ stop-monitor w, quiet)
