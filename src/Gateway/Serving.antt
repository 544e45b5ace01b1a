-- ===== src/Gateway/Serving.antt =====
-- Whatever the application is asked, its queue goes through a run.
use indian_sim_sms_gateway.Prelude.{
  ℕ, ◌+◌, ◌≡◌, refl, sym, ◌∙◌, ap, subst, Bool, true, false, Option, none, some, List, [], ◌∷◌,
  ◌++◌, arith, get_elem?, if◌then◌else◌, Bool-cases, inl, inr,
}
use indian_sim_sms_gateway.Prelude.Int.{ℤ}
use indian_sim_sms_gateway.Prelude.Text.{Text}
use indian_sim_sms_gateway.Prelude.Json.{Json}
use indian_sim_sms_gateway.Prelude.Clock.{Time}
use indian_sim_sms_gateway.Message.{QueuedMessage}
use indian_sim_sms_gateway.Queue.State.{MessageQueue, full}
use indian_sim_sms_gateway.Queue.Step.{enqueue}
use indian_sim_sms_gateway.Queue.Run.{Move, Event, enqueues, worker, step, advance, run}
use indian_sim_sms_gateway.Queue.Steady.{move_at-Steady, advance-Steady}
use indian_sim_sms_gateway.DeadLetter.Redis.{RedisClient}
use indian_sim_sms_gateway.DeadLetter.Letter.{DeadLetter}
use indian_sim_sms_gateway.DeadLetter.Office.{
  DeadLetterOffice, Found, missing, copied, shared, get, revived, remember,
}
use indian_sim_sms_gateway.DeadLetter.Recovery.{retry, re_enqueue, retry_found, counted}
use indian_sim_sms_gateway.Gateway.Requests.{InboundSmsRequest, TelemetryRequest, Response, Gateway}
use indian_sim_sms_gateway.Gateway.Endpoints.{
  message_of, accept_sms, enqueue_now, enqueue_callback, receive_sms, receive_telemetry, get_health,
  list_dead_letters, retry_dead_letter, purge_dead_letters, retry_response, retry_with,
}
use indian_sim_sms_gateway.Gateway.Recovering.{is_ok}
use indian_sim_sms_gateway.Gateway.Service.{
  Request, sends_sms, sends_telemetry, asks_health, lists_letters, retries_letter, purges_letters,
  lists_incidents, admitted, Activity, requests, works, handle, work, run_service,
}

run-append :
    (es es' : List Event) (q : MessageQueue) → (run (es ++ es') q).0 ≡ (run es' (run es q).0).0
unfolding run
run-append [] es' q = refl
run-append (e ∷ es) es' q = run-append es es' (advance (step e q) q).0

-- A run of the queue in which n messages are enqueued.
abbrev pub Feeds : ℕ → MessageQueue → MessageQueue → Type 0
Feeds n q q' = (es : List Event) × (q' ≡ (run es q).0) × (q'.total_enqueued ≡ q.total_enqueued + n)

abbrev one_if : Bool → ℕ
one_if b = if b then 1 else 0

nothing-Feeds : (q : MessageQueue) → Feeds 0 q q
unfolding run
nothing-Feeds q = ([], refl, omega arith)

enqueue_now-Feeds :
    (m : QueuedMessage) (q : MessageQueue)
    → Feeds (one_if (enqueue_now m q).0) q (enqueue_now m q).1
unfolding run step enqueue
enqueue_now-Feeds m q = elim (Bool-cases (full q)) [
  | inl e ↦ rw e ([], refl, omega arith)
  | inr e ↦ rw e (enqueues m ∷ [], rw e refl, omega arith)
]

module _ (c : RedisClient) where
  re_enqueue-Feeds :
      (k : Text) (l : DeadLetter) (now : Time) (o : DeadLetterOffice c) (q : MessageQueue)
      → let (b, o', q') = re_enqueue c k l now enqueue_callback o q in Feeds (one_if b) q q'
  unfolding re_enqueue
  re_enqueue-Feeds k l now o q =
      let m = revived l now in
      let fed = λ (b : Bool) (e : (enqueue_now m q).0 ≡ b).
        subst (λ x. Feeds (one_if x) q (enqueue_now m q).1) e (enqueue_now-Feeds m q) in
      elim (Bool-cases (enqueue_now m q).0) [
        | inl e ↦ rw e (fed true e)
        | inr e ↦ rw e (fed false e)
      ]

  retry_found-Feeds :
      (f : Found c) (k : Text) (now : Time) (o : DeadLetterOffice c) (q : MessageQueue)
      → let (b, o', q') = retry_found c k (f, o) now enqueue_callback q in Feeds (one_if b) q q'
  retry_found-Feeds missing k now o q = nothing-Feeds q
  retry_found-Feeds (copied l) k now o q = re_enqueue-Feeds k (counted l) now o q
  retry_found-Feeds (shared l) k now o q =
      re_enqueue-Feeds k (counted l) now (remember c k (counted l) o) q

  retry-Feeds :
      (k : Text) (now : Time) (o : DeadLetterOffice c) (q : MessageQueue)
      → let (b, o', q') = retry c k now enqueue_callback o q in Feeds (one_if b) q q'
  unfolding retry
  retry-Feeds k now o q = retry_found-Feeds (get c k now o).0 k now (get c k now o).1 q

  -- A gateway whose queue has gone through a run from q.
  abbrev pub Serves : ℕ → MessageQueue → Gateway c → Type 0
  Serves n q g = (q' : MessageQueue) × (g.message_queue ≡ some q') × Feeds n q q'

  idle-Serves : (q : MessageQueue) (g : Gateway c) → g.message_queue ≡ some q → Serves 0 q g
  idle-Serves q g up = (q, up, nothing-Feeds q)

  retry_response-is_ok : (k : Text) (b : Bool) → is_ok (retry_response c k b) ≡ b
  retry_response-is_ok k true = refl
  retry_response-is_ok k false = refl

  retry_with-Serves :
      (r : Option (DeadLetterOffice c)) (q : MessageQueue) (k : Text) (now : Time) (g : Gateway c)
      → g.message_queue ≡ some q
      → let (a, g') = retry_with c r (some q) k now g in Serves (one_if (is_ok a)) q g'
  retry_with-Serves none q k now g up = idle-Serves q g up
  retry_with-Serves (some o) q k now g up =
      let (b, o', q') = retry c k now enqueue_callback o q in
      (
        q',
        refl,
        subst (λ x. Feeds (one_if x) q q') (sym (retry_response-is_ok k b)) (retry-Feeds k now o q),
      )

  retry_dead_letter-Serves :
      (k : Text) (now : Time) (g : Gateway c) (q : MessageQueue)
      → g.message_queue ≡ some q
      → let (a, g') = retry_dead_letter c k now g in Serves (one_if (is_ok a)) q g'
  unfolding retry_dead_letter
  retry_dead_letter-Serves k now g q up = simp up (retry_with-Serves g.dlo q k now g up)

  accept_sms-Serves :
      (m : QueuedMessage) (x : Bool × MessageQueue) (g : Gateway c) (q : MessageQueue)
      → Feeds (one_if x.0) q x.1
      → let (a, g') = accept_sms c m x g in Serves (one_if (is_ok a)) q g'
  accept_sms-Serves m (true, q') g q fed = (q', refl, fed)
  accept_sms-Serves m (false, q') g q fed = (q', refl, fed)

  receive_sms-Serves :
      (r : InboundSmsRequest) (max_retries : ℤ) (stamp : Text) (now created : Time) (g : Gateway c)
      (q : MessageQueue)
      → g.message_queue ≡ some q
      → let (a, g') = receive_sms c r max_retries stamp now created g in
        Serves (one_if (is_ok a)) q g'
  unfolding receive_sms
  receive_sms-Serves r max_retries stamp now created g q up =
      let m = message_of r max_retries stamp now created in
      simp up (accept_sms-Serves m (enqueue_now m q) g q (enqueue_now-Feeds m q))

  -- A handler that leaves the queue alone.
  abbrev SparesQueue : Gateway c → Response × Gateway c → Type 0
  SparesQueue g s = s.1.message_queue ≡ g.message_queue

  receive_telemetry-SparesQueue :
      (r : TelemetryRequest) (now : Time) (g : Gateway c)
      → SparesQueue g (receive_telemetry c r now g)
  unfolding receive_telemetry
  receive_telemetry-SparesQueue r now g = ground arith

  get_health-SparesQueue :
      (percentage : ℕ → ℕ → Json) (now later : Time) (g : Gateway c)
      → SparesQueue g (get_health c percentage now later g)
  unfolding get_health
  get_health-SparesQueue percentage now later g = ground arith

  list_dead_letters-SparesQueue :
      (now : Time) (g : Gateway c) → SparesQueue g (list_dead_letters c now g)
  unfolding list_dead_letters
  list_dead_letters-SparesQueue now g = ground arith

  purge_dead_letters-SparesQueue : (g : Gateway c) → SparesQueue g (purge_dead_letters c g)
  unfolding purge_dead_letters
  purge_dead_letters-SparesQueue g = ground arith

  module _ (percentage : ℕ → ℕ → Json) where
    handle-Serves :
        (r : Request) (g : Gateway c) (q : MessageQueue)
        → g.message_queue ≡ some q
        → let (a, g') = handle c percentage r g in Serves (admitted r a) q g'
    unfolding handle
    handle-Serves (sends_sms r max_retries stamp now created) g q up =
        receive_sms-Serves r max_retries stamp now created g q up
    handle-Serves (sends_telemetry r now) g q up =
        idle-Serves q (receive_telemetry c r now g).1 (receive_telemetry-SparesQueue r now g ∙ up)
    handle-Serves (asks_health now later) g q up =
        idle-Serves q (get_health c percentage now later g).1
          (get_health-SparesQueue percentage now later g ∙ up)
    handle-Serves (lists_letters now) g q up =
        idle-Serves q (list_dead_letters c now g).1 (list_dead_letters-SparesQueue now g ∙ up)
    handle-Serves (retries_letter k now) g q up = retry_dead_letter-Serves k now g q up
    handle-Serves purges_letters g q up =
        idle-Serves q (purge_dead_letters c g).1 (purge_dead_letters-SparesQueue g ∙ up)
    handle-Serves (lists_incidents limit) g q up = idle-Serves q g up

    work-Serves :
        (w : ℕ) (mv : Move) (now : Time) (g : Gateway c) (q : MessageQueue)
        → g.message_queue ≡ some q
        → Serves 0 q (work c percentage g.message_queue w mv now g)
    unfolding work run step
    work-Serves w mv now g q up =
        let s = step (worker w mv) q in
        let kept = advance-Steady s q (move_at-Steady (get_elem? q.workers w) mv q w) in
        simp up ((advance s q).0, refl, (worker w mv ∷ [], refl, omega (arith, kept.1)))

    Serves-append :
        (n k : ℕ) (q : MessageQueue) (g g' : Gateway c)
        → (s : Serves n q g) → Serves k s.0 g'
        → Serves (n + k) q g'
    Serves-append n k q g g' (q', up, (es, ran, count)) (q'', up', (es', ran', count')) = (
      q'',
      up',
      (
        es ++ es',
        ran' ∙ ap (λ x. (run es' x).0) ran ∙ sym (run-append es es' q),
        omega (arith, count, count'),
      ),
    )

    -- Whatever is asked of an application with a queue, and whatever its workers do between the
    -- requests: its queue goes through a run, and it counts as enqueued what it did before, and one
    -- for each inbound SMS and each manual retry that was answered with success.
    pub run_service-Serves :
        (acts : List Activity) (g : Gateway c) (q : MessageQueue)
        → g.message_queue ≡ some q
        → let (n, g') = run_service c percentage acts g in Serves n q g'
    unfolding run_service
    run_service-Serves [] g q up = idle-Serves q g up
    run_service-Serves (requests r ∷ acts) g q up =
        let (a, g') = handle c percentage r g in
        let (n, g'') = run_service c percentage acts g' in
        let s = handle-Serves r g q up in
        Serves-append (admitted r a) n q g' g'' s (run_service-Serves acts g' s.0 s.1)
    run_service-Serves (works w mv now ∷ acts) g q up =
        let g' = work c percentage g.message_queue w mv now g in
        let (n, g'') = run_service c percentage acts g' in
        let s = work-Serves w mv now g q up in
        subst (λ k. Serves k q g'') (omega arith)
          (Serves-append 0 n q g' g'' s (run_service-Serves acts g' s.0 s.1))
