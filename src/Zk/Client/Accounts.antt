-- ===== src/Zk/Client/Accounts.antt =====
-- src/rb_zk.c: what becomes of the handles and of the locks that are asked for.
use rb_monitor.Prelude.{
  Bool-cases, ◌&&◌, true, false, Bool, zero, ℕ, suc, ◌+◌, ◌≡◌, ◌⊎◌, inl, inr, refl, ap, sym, ◌∙◌,
  Option, none, some, List, [], ◌∷◌, ◌++◌, length, length-append, ret, arith,
}
use mathlib.Core.List.{append_assoc, append-nil}
use rb_monitor.Prelude.Int.{ℤ}
use rb_monitor.Prelude.Text.{Text}
use rb_monitor.Zk.{
  Call, acreate, aget_children, wexists, adelete, schange_cb, error_cb, Mutex,
  rb_zk_mutex_create_entry, rb_zk_mutex_lock0, clean_mutex, rb_zk_mutex_done,
  rb_zk_mutex_error_done,
}
use rb_monitor.Zk.Context.{
  Context, rb_zk_mutex_lock, lock_each, zk_watcher_do_pending_locks, clean_each,
  zk_watcher_clean_mutex, zk_watcher,
}
use rb_monitor.Zk.Context.Pending.{AllAccepted}
use rb_monitor.Zk.Client.{take_out, ClientCall, zookeeper_close, zookeeper_init, close_handler}

-- The nodes that are asked for, and the errors that are reported.
abbrev pub creations : List Call → ℕ
creations [] = 0
creations (acreate path ∷ calls) = suc (creations calls)
creations (aget_children path ∷ calls) = creations calls
creations (wexists path ∷ calls) = creations calls
creations (adelete path ∷ calls) = creations calls
creations (schange_cb obtained ∷ calls) = creations calls
creations (error_cb cause rc ∷ calls) = creations calls

abbrev pub errors : List Call → ℕ
errors [] = 0
errors (acreate path ∷ calls) = errors calls
errors (aget_children path ∷ calls) = errors calls
errors (wexists path ∷ calls) = errors calls
errors (adelete path ∷ calls) = errors calls
errors (schange_cb obtained ∷ calls) = errors calls
errors (error_cb cause rc ∷ calls) = suc (errors calls)

creations-append : (a b : List Call) → creations (a ++ b) ≡ creations a + creations b
creations-append [] b = omega arith
creations-append (acreate path ∷ a) b = omega (arith, creations-append a b)
creations-append (aget_children path ∷ a) b = creations-append a b
creations-append (wexists path ∷ a) b = creations-append a b
creations-append (adelete path ∷ a) b = creations-append a b
creations-append (schange_cb obtained ∷ a) b = creations-append a b
creations-append (error_cb cause rc ∷ a) b = creations-append a b

errors-append : (a b : List Call) → errors (a ++ b) ≡ errors a + errors b
errors-append [] b = omega arith
errors-append (acreate path ∷ a) b = errors-append a b
errors-append (aget_children path ∷ a) b = errors-append a b
errors-append (wexists path ∷ a) b = errors-append a b
errors-append (adelete path ∷ a) b = errors-append a b
errors-append (schange_cb obtained ∷ a) b = errors-append a b
errors-append (error_cb cause rc ∷ a) b = omega (arith, errors-append a b)

-- Each mutex has a callback for its error.
abbrev pub AllReport : List Mutex → Type 0
AllReport [] = Unit
AllReport (m ∷ l) = (m.error_cb ≡ true) × AllReport l

AllReport-append : (a b : List Mutex) → AllReport a → AllReport b → AllReport (a ++ b)
AllReport-append [] b h k = k
AllReport-append (m ∷ a) b (e, h) k = (e, AllReport-append a b h k)

abbrev pub Reports : Context → Type 0
Reports c = AllReport c.pending_leaders × AllReport c.leaders_nodes_list

-- Each mutex that is cleaned reports one error.
clean_each-calls :
    (buf : Text) (state : ℤ) (l : List Mutex)
    → AllReport l
    → (calls : List Call) × (clean_each buf state l ≡ ret calls)
      × (creations calls ≡ 0)
      × (errors calls ≡ length l)
unfolding clean_each clean_mutex rb_zk_mutex_done rb_zk_mutex_error_done
clean_each-calls buf state [] h = ([], refl, refl, refl)
clean_each-calls buf state (i ∷ l) (e, h) =
    let (calls, same, created, failed) = clean_each-calls buf state l h in
    (
      schange_cb false ∷ error_cb buf state ∷ calls,
      rw e (rw same refl),
      created,
      omega (arith, failed),
    )

-- The locks that are not ended: those that wait, and those that are in the list of leaders.
abbrev pub waiting : Context → ℕ
waiting c = length c.pending_leaders

abbrev pub leaders : Context → ℕ
leaders c = length c.leaders_nodes_list

-- What calls between two states account for, with the mutexes that are freed quietly.
pub record Balanced (asked : ℕ) (calls : List Call) (quiet : List Mutex) (before after : Context)
    : Type 0 where
  pub ended :
      asked + (waiting before + leaders before)
      ≡ errors calls + length quiet + (waiting after + leaders after)
  pub created : creations calls + leaders before ≡ errors calls + length quiet + leaders after
  pub keeps : Reports before → Reports after

pub Balanced-append :
    (m n : ℕ) (a b : List Call) (p q : List Mutex) (x y z : Context)
    → Balanced m a p x y
    → Balanced n b q y z
    → Balanced (m + n) (a ++ b) (p ++ q) x z
Balanced-append m n a b p q x y z f g = record {
  ended = omega (arith, f.ended, g.ended, errors-append a b, length-append p q);
  created =
      omega
        (arith, f.created, g.created, errors-append a b, creations-append a b, length-append p q);
  keeps = λ h. g.keeps (f.keeps h);
}

-- Each lock that waits is moved, with a call of zoo_acreate.
lock_each-moved :
    (acreate_rc : Text → ℤ) (pending list : List Mutex)
    → AllAccepted acreate_rc
    → (calls : List Call) × (lock_each acreate_rc pending list ≡ ret (calls, list ++ pending))
      × (creations calls ≡ length pending)
      × (errors calls ≡ 0)
unfolding lock_each rb_zk_mutex_lock0
lock_each-moved acreate_rc [] list h =
    ([], ap (λ l. ret ([], l)) (sym (append-nil list)), refl, refl)
lock_each-moved acreate_rc (i ∷ pending) list h =
    let (calls, same, created, failed) = lock_each-moved acreate_rc pending (list ++ i ∷ []) h in
    (
      acreate i.path ∷ calls,
      rw (h i.path) (
          rw same (ap (λ l. ret (acreate i.path ∷ calls, l)) (append_assoc list (i ∷ []) pending))),
      omega (arith, created),
      failed,
    )

pub lock-Balanced :
    (path : Text) (has_error_cb : Bool) (c : Context)
    → has_error_cb ≡ true
    → Balanced 1 [] [] c (rb_zk_mutex_lock path has_error_cb c)
unfolding rb_zk_mutex_lock rb_zk_mutex_create_entry
lock-Balanced path has_error_cb c e =
    let more = length-append c.pending_leaders (rb_zk_mutex_create_entry path has_error_cb ∷ []) in
    record {
      ended = omega (arith, more);
      created = omega arith;
      keeps = λ h. (
        AllReport-append c.pending_leaders (rb_zk_mutex_create_entry path has_error_cb ∷ []) h.0
            (e, tt),
        h.1,
      );
    }

pub pending-Balanced :
    (acreate_rc : Text → ℤ) (connected : Bool) (c : Context)
    → AllAccepted acreate_rc
    → (calls : List Call) × (after : Context) × (zk_watcher_do_pending_locks acreate_rc
          (record c { connected = connected })
        ≡ ret (calls, after))
      × Balanced 0 calls [] c after
unfolding zk_watcher_do_pending_locks
pending-Balanced acreate_rc false c h = (
  [],
  record c { connected = false },
  refl,
  record { ended = omega arith; created = omega arith; keeps = λ h. h },
)
pending-Balanced acreate_rc true c h =
    let (calls, same, made, failed) =
      lock_each-moved acreate_rc c.pending_leaders c.leaders_nodes_list h in
    let more = length-append c.leaders_nodes_list c.pending_leaders in
    (
      calls,
      record {
        connected = true;
        leaders_nodes_list = c.leaders_nodes_list ++ c.pending_leaders;
        pending_leaders = [];
      },
      rw same refl,
      record {
        ended = omega (arith, failed, more);
        created = omega (arith, made, failed, more);
        keeps = λ h. (tt, AllReport-append c.leaders_nodes_list c.pending_leaders h.1 h.0);
      },
    )

cleaned-Balanced :
    (buf : Text) (session expired : Bool) (state : ℤ) (c : Context)
    → Reports c
    → (expires : Bool) × (calls : List Call) × (after : Context) × (zk_watcher_clean_mutex buf
          session expired state c
        ≡ ret (expires, calls, after))
      × Balanced 0 calls [] c after
unfolding zk_watcher_clean_mutex
cleaned-Balanced buf session expired state c h =
    let (calls, same, created, failed) = clean_each-calls buf state c.leaders_nodes_list h.1 in
    (
      session && expired,
      calls,
      record c { leaders_nodes_list = [] },
      rw same refl,
      record {
        ended = omega (arith, failed);
        created = omega (arith, created, failed);
        keeps = λ k. (k.0, tt);
      },
    )

pub watcher-Balanced :
    (buf : Text) (session connected expired : Bool) (state : ℤ) (c : Context)
    → Reports c
    → (connects expires : Bool) × (calls : List Call) × (after : Context) × (zk_watcher buf session
          connected expired state c
        ≡ ret (connects, expires, calls, after))
      × Balanced 0 calls [] c after
unfolding zk_watcher
watcher-Balanced buf session connected expired state c h =
    elim (Bool-cases (session && connected)) [
      | inl e ↦ (
        true,
        false,
        [],
        c,
        rw e refl,
        record { ended = omega arith; created = omega arith; keeps = λ k. k },
      )
      | inr e ↦
          let (expires, calls, after, same, balanced) =
            cleaned-Balanced buf session expired state c h in
          (false, expires, calls, after, rw (e, same) refl, balanced)
    ]

-- A mutex that ends is taken off the list of leaders.
pub take_out-length :
    (i : ℕ) (list : List Mutex)
    → (((take_out i list).0 ≡ none) × ((take_out i list).1 ≡ list))
      ⊎ ((m : Mutex) × ((take_out i list).0 ≡ some m)
          × (length list ≡ suc (length (take_out i list).1)))
take_out-length zero [] = inl (refl, refl)
take_out-length (suc i) [] = inl (refl, refl)
take_out-length zero (m ∷ list) = inr (m, refl, omega arith)
take_out-length (suc i) (m ∷ list) = elim (take_out-length i list) [
  | inl missing ↦ inl (missing.0, ap (λ l. m ∷ l) missing.1)
  | inr found ↦ let (x, e, fewer) = found in inr (x, e, omega (arith, fewer))
]

pub take_out-AllReport :
    (i : ℕ) (list : List Mutex) → AllReport list → AllReport (take_out i list).1
take_out-AllReport zero [] h = tt
take_out-AllReport (suc i) [] h = tt
take_out-AllReport zero (m ∷ list) h = h.1
take_out-AllReport (suc i) (m ∷ list) h = (h.0, take_out-AllReport i list h.1)

module _ {ℓ} (Handle : Type ℓ) where
  -- The handles that zookeeper_init returned, and those that were closed.
  abbrev pub current : Option Handle → List Handle
  current none = []
  current (some h) = h ∷ []

  abbrev pub opens : List (ClientCall Handle) → List Handle
  opens [] = []
  opens (zookeeper_close h ∷ calls) = opens calls
  opens (zookeeper_init none ∷ calls) = opens calls
  opens (zookeeper_init (some h) ∷ calls) = h ∷ opens calls

  abbrev pub closes : List (ClientCall Handle) → List Handle
  closes [] = []
  closes (zookeeper_close h ∷ calls) = h ∷ closes calls
  closes (zookeeper_init o ∷ calls) = closes calls

  pub opens-append : (a b : List (ClientCall Handle)) → opens (a ++ b) ≡ opens a ++ opens b
  opens-append [] b = refl
  opens-append (zookeeper_close h ∷ a) b = opens-append a b
  opens-append (zookeeper_init none ∷ a) b = opens-append a b
  opens-append (zookeeper_init (some h) ∷ a) b = ap (λ l. h ∷ l) (opens-append a b)

  pub closes-append : (a b : List (ClientCall Handle)) → closes (a ++ b) ≡ closes a ++ closes b
  closes-append [] b = refl
  closes-append (zookeeper_close h ∷ a) b = ap (λ l. h ∷ l) (closes-append a b)
  closes-append (zookeeper_init o ∷ a) b = closes-append a b

  -- Between two handlers, each handle that is opened is closed before the next one.
  abbrev pub Handed : List (ClientCall Handle) → Option Handle → Option Handle → Type ℓ
  Handed client before after = current before ++ opens client ≡ closes client ++ current after

  pub reset-Handed :
      (before fresh : Option Handle)
      → Handed (close_handler Handle before ++ zookeeper_init fresh ∷ []) before fresh
  reset-Handed none none = refl
  reset-Handed none (some h) = refl
  reset-Handed (some h) none = refl
  reset-Handed (some h) (some h') = refl

  pub Handed-append :
      (a b : List (ClientCall Handle)) (x y z : Option Handle)
      → Handed a x y
      → Handed b y z
      → Handed (a ++ b) x z
  Handed-append a b x y z f g =
      ap (λ l. current x ++ l) (opens-append a b)
      ∙ sym (append_assoc (current x) (opens a) (opens b))
      ∙ ap (λ l. l ++ opens b) f
      ∙ append_assoc (closes a) (current y) (opens b)
      ∙ ap (λ l. closes a ++ l) g
      ∙ sym (append_assoc (closes a) (closes b) (current z))
      ∙ ap (λ l. l ++ current z) (sym (closes-append a b))
