-- ===== src/KvEngine/Stops.antt =====
-- `Stop` of server/storage/kv_engine.go: what becomes of the sessions and of the world.
use xmongodb.Common.{
  ℕ, ◌≡◌, ◌≢◌, Option, none, some, get_elem?, set, get-set_same, get-set_ne, refl, sym, ap, ◌∙◌,
  true, false, List, [], ◌∷◌, arith, ok, err,
}
use xmongodb.Bytes.{Bytes}
use xmongodb.Dict.{Dict}
use xmongodb.RecoveryUnit.{active}
use xmongodb.RecoveryUnit.Undo.{Applied, rollback_restores}
use xmongodb.Session
use xmongodb.Session.{Session}
use xmongodb.KvEngine.{
  KvEngine, already_running, not_running, start, stop, create_session, end_session, end_found,
  end_sessions,
}

-- No entry of the map points to this session.
abbrev pub IsApart : ℕ → Dict ℕ → Type 0
IsApart p [] = Unit
IsApart p ((id, q) ∷ rest) = (p ≢ q) × IsApart p rest

-- The world `w` came from `w₀` by what is open in the sessions of the map, the last of the list
-- first: a session in a transaction has registered changes, each of which its rollback undoes, and
-- a session outside of one has nothing open. No session is in the map twice.
pub data Pending {W : Type 0} (w₀ : W) : Dict ℕ → List (Session W) → W → Type 0 where
  all_done : {objects : List (Session W)} → Pending w₀ [] objects w₀
  outside :
      {id : Bytes} {p : ℕ} {s : Session W} {rest : Dict ℕ} {objects : List (Session W)} {w : W}
      → get_elem? objects p ≡ some s
      → IsApart p rest
      → s.in_transaction ≡ false
      → Pending w₀ rest objects w
      → Pending w₀ ((id, p) ∷ rest) objects w
  inside :
      {id : Bytes} {p : ℕ} {s : Session W} {rest : Dict ℕ} {objects : List (Session W)} {w w' : W}
      → get_elem? objects p ≡ some s
      → IsApart p rest
      → s.active ≡ true
      → s.in_transaction ≡ true
      → s.recovery_unit.state ≡ active
      → Pending w₀ rest objects w
      → Applied w s.recovery_unit.changes w'
      → Pending w₀ ((id, p) ∷ rest) objects w'

-- The session at this number is not active any more, and in no transaction.
pub record IsEnded {W : Type 0} (objects : List (Session W)) (p : ℕ) : Type 0 where
  pub session : Session W
  pub there : get_elem? objects p ≡ some session
  pub inactive : session.active ≡ false
  pub outside : session.in_transaction ≡ false

abbrev pub AllEnded : {W : Type 0} → Dict ℕ → List (Session W) → Type 0
AllEnded [] objects = Unit
AllEnded ((id, p) ∷ rest) objects = IsEnded objects p × AllEnded rest objects

module _ {W : Type 0} where
  -- What `End` does to a session with nothing open, and to one in a transaction.
  record Ends (s : Session W) (w w' : W) : Type 0 where
    world : (Session.end s w).2 ≡ w'
    inactive : (Session.end s w).1.active ≡ false
    outside : (Session.end s w).1.in_transaction ≡ false

  end_outside : (s : Session W) (w : W) → s.in_transaction ≡ false → Ends s w w
  unfolding Session.end
  end_outside s w h = record {
    world = ground arith;
    inactive = ground arith;
    outside = ground arith;
  }

  end_inside :
      (s : Session W) {w w' : W}
      → s.active ≡ true
      → s.in_transaction ≡ true
      → s.recovery_unit.state ≡ active
      → Applied w s.recovery_unit.changes w'
      → Ends s w' w
  unfolding Session.end
  end_inside s a i u p =
      let run = rollback_restores s.recovery_unit u p in
      record { world = simp (a, i, run); inactive = simp (a, i, run); outside = simp (a, i, run) }

  -- The session at another number stays as it is.
  Pending-set :
      {w₀ : W} {sessions : Dict ℕ} {objects : List (Session W)} {w : W} (p : ℕ) (v : Session W)
      → IsApart p sessions
      → Pending w₀ sessions objects w
      → Pending w₀ sessions (set objects p v) w
  Pending-set p v n all_done = all_done
  Pending-set p v n (outside {p = q} {objects} here far h rest) =
      outside (get-set_ne objects p q v n.0 ∙ here) far h (Pending-set p v n.1 rest)
  Pending-set p v n (inside {p = q} {objects} here far a i u rest c) =
      inside (get-set_ne objects p q v n.0 ∙ here) far a i u (Pending-set p v n.1 rest) c

  set-IsEnded :
      (objects : List (Session W)) (p : ℕ) {s : Session W} {w w' : W}
      → get_elem? objects p ≡ some s
      → Ends s w w'
      → IsEnded (set objects p (Session.end s w).1) p
  set-IsEnded objects p {s} {w} here d = record {
    session = (Session.end s w).1;
    there = get-set_same objects p (Session.end s w).1 here;
    inactive = d.inactive;
    outside = d.outside;
  }

  get-end_found :
      (p q : ℕ) (objects : List (Session W)) (w : W) (s : Option (Session W))
      → p ≢ q
      → get_elem? (end_found q objects w s).0 p ≡ get_elem? objects p
  get-end_found p q objects w none ne = refl
  get-end_found p q objects w (some s) ne =
      get-set_ne objects q p (Session.end s w).1 (λ e. ne (sym e))

  end_session-IsEnded :
      (p q : ℕ) (objects : List (Session W)) (w : W)
      → p ≢ q
      → IsEnded objects p
      → IsEnded (end_session q objects w).0 p
  end_session-IsEnded p q objects w ne d = record {
    session = d.session;
    there = get-end_found p q objects w (get_elem? objects q) ne ∙ d.there;
    inactive = d.inactive;
    outside = d.outside;
  }

  -- A session that is ended stays so through the loop.
  end_sessions-IsEnded :
      (p : ℕ) (sessions : Dict ℕ) (objects : List (Session W)) (w : W)
      → IsApart p sessions
      → IsEnded objects p
      → IsEnded (end_sessions sessions objects w).0 p
  unfolding end_sessions
  end_sessions-IsEnded p [] objects w n d = d
  end_sessions-IsEnded p ((id, q) ∷ rest) objects w n d =
      end_sessions-IsEnded p rest (end_session q objects w).0 (end_session q objects w).1 n.1
        (end_session-IsEnded p q objects w n.0 d)

  end_sessions-Ends :
      (id : Bytes) (p : ℕ) (rest : Dict ℕ) (objects : List (Session W)) {s : Session W} {w w' : W}
      → get_elem? objects p ≡ some s
      → Ends s w w'
      → end_sessions ((id, p) ∷ rest) objects w
        ≡ end_sessions rest (set objects p (Session.end s w).1) w'
  unfolding end_sessions
  end_sessions-Ends id p rest objects {s} {w} here d =
      ap (λ x. end_sessions rest (end_found p objects w x).0 (end_found p objects w x).1) here
      ∙ ap (end_sessions rest (set objects p (Session.end s w).1)) d.world

  -- What the loop comes to.
  abbrev Stopped : W → Dict ℕ → List (Session W) × W → Type 0
  Stopped w₀ sessions o = (o.1 ≡ w₀) × AllEnded sessions o.0

  first-Stopped :
      (id : Bytes) (p : ℕ) (rest : Dict ℕ) (objects : List (Session W)) {s : Session W} (w₀ : W)
      {w w' : W}
      → get_elem? objects p ≡ some s
      → IsApart p rest
      → Ends s w w'
      → Stopped w₀ rest (end_sessions rest (set objects p (Session.end s w).1) w')
      → Stopped w₀ ((id, p) ∷ rest) (end_sessions ((id, p) ∷ rest) objects w)
  first-Stopped id p rest objects {s} w₀ {w} {w'} here far d others =
      let ended =
        end_sessions-IsEnded p rest (set objects p (Session.end s w).1) w' far
          (set-IsEnded objects p here d) in
      rw (end_sessions-Ends id p rest objects here d) (others.0, (ended, others.1))

  end_sessions-Pending :
      {w₀ : W} (sessions : Dict ℕ) (objects : List (Session W)) (w : W)
      → Pending w₀ sessions objects w
      → Stopped w₀ sessions (end_sessions sessions objects w)
  unfolding end_sessions
  end_sessions-Pending [] objects w all_done = (refl, tt)
  end_sessions-Pending ((id, p) ∷ rest) objects w (outside {s} here far h more) =
      first-Stopped id p rest objects _ here far (end_outside s w h) (
        end_sessions-Pending rest (set objects p (Session.end s w).1) w
          (Pending-set p (Session.end s w).1 far more))
  end_sessions-Pending ((id, p) ∷ rest) objects w (inside {s} {w = before} here far a i u more c) =
      first-Stopped id p rest objects _ here far (end_inside s a i u c) (
        end_sessions-Pending rest (set objects p (Session.end s w).1) before
          (Pending-set p (Session.end s w).1 far more))

  -- If the world came about by the open transactions of the sessions of a running engine, from the
  -- last session in the map's list to the first, no session is in the map twice, and each change
  -- is undone by its rollback, `Stop` rolls all of them back: the world is that from before them, and
  -- none of the sessions is active or in a transaction. Afterwards the engine has no session, none
  -- can be created, a second `Stop` does nothing, and `Start`, which fails before it, succeeds.
  pub stop-Pending :
      (e : KvEngine W) {w₀ w : W}
      → e.running ≡ true
      → Pending w₀ e.sessions e.session_objects w
      → (e' : KvEngine W) × (stop e w ≡ (ok tt, e', w₀))
        × AllEnded e.sessions e'.session_objects
        × (e'.sessions ≡ [])
        × ((uuid : Bytes) (now : ℕ) → create_session uuid now e' ≡ (err not_running, e'))
        × ((w' : W) → stop e' w' ≡ (ok tt, e', w'))
        × (start e' ≡ (ok tt, record e' { running = true }))
        × (start e ≡ (err already_running, e))
  unfolding stop start create_session
  stop-Pending e {w₀} {w} h p =
      let (world, ended) = end_sessions-Pending e.sessions e.session_objects w p in
      (
        record e {
          sessions = [];
          running = false;
          session_objects = (end_sessions e.sessions e.session_objects w).0;
        },
        simp (h, world),
        ended,
        refl,
        λ uuid now. refl,
        λ w'. refl,
        refl,
        simp h,
      )
