-- ===== src/Zk/Client/Accounted.antt =====
-- src/rb_zk.c: the handles and the locks after any events.
use rb_monitor.Prelude.{
  true, ◌⊎◌, inl, inr, Bool-cases, if◌then◌else◌, suc, length, ℕ, ◌+◌, ◌≡◌, refl, ap, sym, ◌∙◌,
  Bool, Option, none, some, List, [], ◌∷◌, ◌++◌, Outcome, ret, arith,
}
use mathlib.Core.List.{append-nil}
use rb_monitor.Prelude.Int.{ℤ}
use rb_monitor.Prelude.Text.{Text}
use rb_monitor.Zk.{Mutex, Run, delete_mutex_completed, rb_zk_mutex_done, rb_zk_mutex_error_done}
use rb_monitor.Zk.Context.{Context}
use rb_monitor.Zk.Context.Pending.{AllAccepted}
use rb_monitor.Zk.Client.{
  queue_pending, queue_reset, Queued, do_pending_locks, reset_context, ClientCall, zookeeper_init,
  RbZk, Result, close_handler, reset_zk_context, rb_zk_init, rb_zk_done, Event, locks, watched,
  runs, unlocked, failed, take_out, end_mutex, run_queued, step, run,
}
use rb_monitor.Zk.Client.Accounts.{
  AllReport, Reports, take_out-AllReport, creations, errors, take_out-length, waiting, leaders,
  Balanced, Balanced-append, lock-Balanced, pending-Balanced, watcher-Balanced, current, opens,
  closes, closes-append, Handed, reset-Handed, Handed-append,
}

module _ {ℓ} (Handle : Type ℓ) where
  -- The locks that are asked for.
  abbrev pub asks : Event Handle → ℕ
  asks (locks path has_error_cb) = 1
  asks (watched buf session connected expired state) = 0
  asks (runs connected acreate_rc fresh) = 0
  asks (unlocked i) = 0
  asks (failed i rc error) = 0

  abbrev pub asked : List (Event Handle) → ℕ
  asked [] = 0
  asked (event ∷ events) = asks event + asked events

  -- Each lock has a callback for its error, and zoo_acreate accepts each call.
  abbrev pub Accepts : Event Handle → Type 0
  Accepts (locks path has_error_cb) = has_error_cb ≡ true
  Accepts (watched buf session connected expired state) = Unit
  Accepts (runs connected acreate_rc fresh) = AllAccepted acreate_rc
  Accepts (unlocked i) = Unit
  Accepts (failed i rc error) = Unit

  abbrev pub AcceptsEach : List (Event Handle) → Type 0
  AcceptsEach [] = Unit
  AcceptsEach (event ∷ events) = Accepts event × AcceptsEach events

  -- The run from a state returns, and its calls account for what has changed.
  record Accounted (n : ℕ) (o : Outcome (Result Handle)) (zk : RbZk Handle) : Type ℓ where
    pub result : Result Handle
    pub returns : o ≡ ret result
    pub balanced : Balanced n result.calls result.quiet zk.context result.zk.context
    pub handed : Handed Handle result.client zk.handler result.zk.handler

  unchanged : (c : Context) → Balanced 0 [] [] c c
  unchanged c = record { ended = omega arith; created = omega arith; keeps = λ h. h }

  queued-Accounted :
      (connected : Bool) (acreate_rc : Text → ℤ) (fresh : Option Handle) (queue : List Queued)
      (zk : RbZk Handle)
      → AllAccepted acreate_rc
      → Accounted 0 (run_queued Handle connected acreate_rc fresh queue zk) zk
  unfolding run_queued reset_zk_context
  queued-Accounted connected acreate_rc fresh [] zk h = record {
    result = _;
    returns = refl;
    balanced = unchanged zk.context;
    handed = append-nil (current Handle zk.handler);
  }
  queued-Accounted connected acreate_rc fresh (do_pending_locks ∷ rest) zk h =
      let (calls, after, same, balanced) = pending-Balanced acreate_rc connected zk.context h in
      record {
        result = record {
          calls = calls;
          client = [];
          quiet = [];
          zk = record zk { queued = rest; context = after };
        };
        returns = rw same refl;
        balanced = balanced;
        handed = append-nil (current Handle zk.handler);
      }
  queued-Accounted connected acreate_rc fresh (reset_context ∷ rest) zk h = record {
    result = _;
    returns = refl;
    balanced = unchanged zk.context;
    handed = reset-Handed Handle zk.handler fresh;
  }

  -- One event and then the others.
  both-Accounted :
      (m n : ℕ) (event : Event Handle) (events : List (Event Handle)) (zk : RbZk Handle)
      → (f : Accounted m (step Handle event zk) zk)
      → Accounted n (run Handle events f.result.zk) f.result.zk
      → Accounted (m + n) (run Handle (event ∷ events) zk) zk
  unfolding run
  both-Accounted m n event events zk f g = record {
    result = record {
      calls = f.result.calls ++ g.result.calls;
      client = f.result.client ++ g.result.client;
      quiet = f.result.quiet ++ g.result.quiet;
      zk = g.result.zk;
    };
    returns = rw (f.returns, g.returns) refl;
    balanced =
        Balanced-append m n f.result.calls g.result.calls f.result.quiet g.result.quiet _ _ _
          f.balanced g.balanced;
    handed = Handed-append Handle f.result.client g.result.client _ _ _ f.handed g.handed;
  }

  end-Accounted :
      (ends : Mutex → Run) (quiet : Mutex → List Mutex) (o : Option Mutex × List Mutex)
      (zk : RbZk Handle)
      → ((m : Mutex)
          → (creations (ends m).calls ≡ 0) × (errors (ends m).calls + length (quiet m) ≡ 1))
      → (AllReport zk.context.leaders_nodes_list → AllReport o.1)
      → ((o.0 ≡ none) × (o.1 ≡ zk.context.leaders_nodes_list))
        ⊎ ((m : Mutex) × (o.0 ≡ some m) × (leaders zk.context ≡ suc (length o.1)))
      → Accounted 0 (ret (end_mutex Handle ends quiet o zk)) zk
  end-Accounted ends quiet (none, rest) zk one keep taken = record {
    result = _;
    returns = refl;
    balanced = unchanged zk.context;
    handed = append-nil (current Handle zk.handler);
  }
  end-Accounted ends quiet (some m, rest) zk one keep (inl gone) = cc
  end-Accounted ends quiet (some m, rest) zk one keep (inr (x, e, fewer)) =
      let (made, reported) = one m in
      record {
        result = _;
        returns = refl;
        balanced = record {
          ended = omega (arith, reported, fewer);
          created = omega (arith, made, reported, fewer);
          keeps = λ h. (h.0, keep h.1);
        };
        handed = append-nil (current Handle zk.handler);
      }

  reports :
      (m : Mutex) (rc : ℤ) (error : Text)
      → (creations (rb_zk_mutex_error_done m rc error).calls ≡ 0)
        × (errors (rb_zk_mutex_error_done m rc error).calls
              + length (if m.error_cb then [] else m ∷ [])
            ≡ 1)
  unfolding rb_zk_mutex_error_done
  reports m rc error = elim (Bool-cases m.error_cb) [
    | inl e ↦ rw e (refl, refl)
    | inr e ↦ rw e (refl, refl)
  ]

  step-Accounted :
      (event : Event Handle) (zk : RbZk Handle)
      → Accepts event
      → Reports zk.context
      → Accounted (asks event) (step Handle event zk) zk
  unfolding step delete_mutex_completed rb_zk_mutex_done rb_zk_mutex_error_done
  step-Accounted (locks path has_error_cb) zk h c = record {
    result = _;
    returns = refl;
    balanced = lock-Balanced path has_error_cb zk.context h;
    handed = append-nil (current Handle zk.handler);
  }
  step-Accounted (watched buf session connected expired state) zk h c =
      let (connects, expires, calls, after, same, balanced) =
        watcher-Balanced buf session connected expired state zk.context c in
      record {
        result = record {
          calls = calls;
          client = [];
          quiet = [];
          zk = record zk {
            queued = zk.queued ++ (queue_pending Handle connects ++ queue_reset Handle expires);
            context = after;
          };
        };
        returns = rw same refl;
        balanced = balanced;
        handed = append-nil (current Handle zk.handler);
      }
  step-Accounted (runs connected acreate_rc fresh) zk h c =
      queued-Accounted connected acreate_rc fresh zk.queued zk h
  step-Accounted (unlocked i) zk h c =
      end-Accounted delete_mutex_completed (λ m. m ∷ []) (take_out i zk.context.leaders_nodes_list)
        zk (λ m. (refl, refl)) (take_out-AllReport i zk.context.leaders_nodes_list)
        (take_out-length i zk.context.leaders_nodes_list)
  step-Accounted (failed i rc error) zk h c =
      end-Accounted (λ m. rb_zk_mutex_error_done m rc error)
        (λ m. if m.error_cb then [] else m ∷ []) (take_out i zk.context.leaders_nodes_list) zk
        (λ m. reports m rc error) (take_out-AllReport i zk.context.leaders_nodes_list)
        (take_out-length i zk.context.leaders_nodes_list)

  run-Accounted :
      (events : List (Event Handle)) (zk : RbZk Handle)
      → AcceptsEach events
      → Reports zk.context
      → Accounted (asked events) (run Handle events zk) zk
  unfolding run
  run-Accounted [] zk h c = record {
    result = _;
    returns = refl;
    balanced = unchanged zk.context;
    handed = append-nil (current Handle zk.handler);
  }
  run-Accounted (event ∷ events) zk (h, hs) c =
      let f = step-Accounted event zk h c in
      both-Accounted (asks event) (asked events) event events zk f
        (run-Accounted events f.result.zk hs (f.balanced.keeps c))

  -- Let rb_zk_init be called. Then let locks with an error callback be asked for, the watcher of the
  -- client be called with any change of the connection, the queued functions run, and mutexes of the
  -- list of leaders be unlocked or fail: one event at a time and each to its end, in any order, where
  -- zoo_acreate accepts each call. Then each lock that was asked for waits, or has had one node asked
  -- for; of those each is in the list of leaders, or its callback has got one error, or it was
  -- unlocked: the numbers agree. And with rb_zk_done each handle that zookeeper_init returned is
  -- closed once, in their order.
  pub run_accounted :
      (first : Option Handle) (events : List (Event Handle))
      → AcceptsEach events
      → (r : Result Handle) × (run Handle events (rb_zk_init Handle first).zk ≡ ret r)
        × (asked events ≡ creations r.calls + waiting r.zk.context)
        × (creations r.calls ≡ errors r.calls + length r.quiet + leaders r.zk.context)
        × (opens Handle ((rb_zk_init Handle first).client ++ r.client)
            ≡ closes Handle (r.client ++ rb_zk_done Handle r.zk))
  unfolding rb_zk_init rb_zk_done reset_zk_context
  run_accounted first events h =
      let f = run-Accounted events (rb_zk_init Handle first).zk h (tt, tt) in
      let r = f.result in
      (
        r,
        f.returns,
        omega (arith, f.balanced.ended, f.balanced.created),
        omega (arith, f.balanced.created),
        opened first r.client
            ∙ f.handed
            ∙ ap (λ l. closes Handle r.client ++ l) (sym (closed r.zk.handler))
            ∙ sym (closes-append Handle r.client (close_handler Handle r.zk.handler)),
      )
    where
      opened :
          (o : Option Handle) (client : List (ClientCall Handle))
          → opens Handle (zookeeper_init o ∷ client) ≡ current Handle o ++ opens Handle client
      opened none client = refl
      opened (some x) client = refl

      closed : (o : Option Handle) → closes Handle (close_handler Handle o) ≡ current Handle o
      closed none = refl
      closed (some x) = refl
