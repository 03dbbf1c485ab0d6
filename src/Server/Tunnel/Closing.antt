-- ===== src/Server/Tunnel/Closing.antt =====
-- portal_server/proxy_server.go: transportDirect closes what it has opened, once.
use http_portal.Base.{
  ◌≡◌, refl, ap, ◌∙◌, inl, inr, Bool, true, false, not, ◌||◌, ◌⊎◌, List, [], ◌∷◌, ◌++◌,
  if◌then◌else◌, arith, Bool-cases,
}
use http_portal.Server.Clients.{Step, done}
use http_portal.Server.Tunnel.{
  Tunnel, opened, Copied, Event, copy_up, copy_down, watch, step, step_up, step_down, step_watch,
  run, fire, close_broken, is_over, closed,
}

-- The channel is closed where the Once has fired, and it has fired where a copy has ended; where the
-- function has returned both connections are closed, and where its watcher has, the agent's is.
pub record IsOrderly (t : Tunnel) : Type 0 where
  pub once : t.broken ≡ t.fired
  pub up_fired : t.upward ≡ false → t.fired ≡ true
  pub down_fired : t.downward ≡ false → t.fired ≡ true
  pub returned : t.downward ≡ false → (t.near_closed ≡ true) × (t.far_closed ≡ true)
  pub watched : t.watching ≡ false → t.far_closed ≡ true

opened-IsOrderly : IsOrderly opened
opened-IsOrderly = record {
  once = refl;
  up_fired = λ e. cc;
  down_fired = λ e. cc;
  returned = λ e. cc;
  watched = λ e. cc;
}

-- The step is no panic, and keeps the order.
abbrev pub Keeps : Step Tunnel → Type 0
Keeps r = (t : Tunnel) × (r ≡ done t) × IsOrderly t

if-Keeps :
    (b : Bool) (x y : Step Tunnel)
    → (b ≡ true → Keeps x)
    → (b ≡ false → Keeps y)
    → Keeps (if b then x else y)
if-Keeps true x y h k = h refl
if-Keeps false x y h k = k refl

pub fire_lem :
    (t : Tunnel) → t.broken ≡ t.fired → fire t ≡ done (record t { fired = true; broken = true })
unfolding fire close_broken
fire_lem t once = elim (Bool-cases t.fired) [
  | inl old ↦ ground (arith, once)
  | inr new ↦ ground (arith, once)
]

up-Keeps : (c : Copied) (t : Tunnel) → IsOrderly t → Keeps (step_up c t)
unfolding step_up
up-Keeps c t o =
    if-Keeps (not t.upward) _ _ (λ idle. (t, refl, o))
      (λ going.
        if-Keeps (is_over c) _ _
          (λ over. (
            _,
            fire_lem (record t { up = t.up ++ c.bytes; upward = false }) o.once,
            record {
              once = refl;
              up_fired = λ e. refl;
              down_fired = λ e. refl;
              returned = o.returned;
              watched = o.watched;
            },
          ))
          (λ more. (
            record t { up = t.up ++ c.bytes },
            refl,
            record {
              once = o.once;
              up_fired = o.up_fired;
              down_fired = o.down_fired;
              returned = o.returned;
              watched = o.watched;
            },
          )))

down-Keeps : (c : Copied) (t : Tunnel) → IsOrderly t → Keeps (step_down c t)
unfolding step_down closed
down-Keeps c t o =
    if-Keeps (not t.downward) _ _ (λ idle. (t, refl, o))
      (λ going.
        if-Keeps (is_over c) _ _
          (λ over. (
            record t {
              down = t.down ++ c.bytes;
              downward = false;
              fired = true;
              broken = true;
              near_closed = true;
              far_closed = true;
            },
            ap closed (fire_lem (record t { down = t.down ++ c.bytes; downward = false }) o.once),
            record {
              once = refl;
              up_fired = λ e. refl;
              down_fired = λ e. refl;
              returned = λ e. (refl, refl);
              watched = λ e. refl;
            },
          ))
          (λ more. (
            record t { down = t.down ++ c.bytes },
            refl,
            record {
              once = o.once;
              up_fired = o.up_fired;
              down_fired = o.down_fired;
              returned = o.returned;
              watched = o.watched;
            },
          )))

watch-Keeps : (ended : Bool) (t : Tunnel) → IsOrderly t → Keeps (step_watch ended t)
unfolding step_watch
watch-Keeps ended t o =
    if-Keeps (not t.watching) _ _ (λ idle. (t, refl, o))
      (λ waiting.
        if-Keeps (ended || t.broken) _ _
          (λ woken. (
            record t { watching = false; far_closed = true },
            refl,
            record {
              once = o.once;
              up_fired = o.up_fired;
              down_fired = o.down_fired;
              returned = λ e. ((o.returned e).0, refl);
              watched = λ e. refl;
            },
          ))
          (λ asleep. (t, refl, o)))

step-Keeps : (e : Event) (t : Tunnel) → IsOrderly t → Keeps (step e t)
unfolding step
step-Keeps (copy_up c) t o = up-Keeps c t o
step-Keeps (copy_down c) t o = down-Keeps c t o
step-Keeps (watch ended) t o = watch-Keeps ended t o

-- Any events end in such a state, from which any more go on.
run-Keeps :
    (events : List Event) (s : Tunnel)
    → IsOrderly s
    → (t : Tunnel) × (run events s ≡ done t)
      × IsOrderly t
      × ((last : List Event) → run (events ++ last) s ≡ run last t)
unfolding run
run-Keeps [] s o = (s, refl, o, λ last. refl)
run-Keeps (e ∷ more) s o =
    let (s1, goes, o1) = step-Keeps e s o in
    let (t, ends, o2, on) = run-Keeps more s1 o1 in
    (t, rw (run, goes) ends, o2, λ last. rw (run, goes) (on last))

-- A copy that has ended, in either direction, lets the watcher close the agent's connection.
woken :
    (t : Tunnel)
    → IsOrderly t
    → (t.upward ≡ false) ⊎ (t.downward ≡ false)
    → (t' : Tunnel) × (step_watch false t ≡ done t') × (t'.far_closed ≡ true)
unfolding step_watch
woken t o ended = elim (Bool-cases t.watching) [
  | inl waiting ↦
      (record t { watching = false; far_closed = true }, rw (waiting, fired_of ended) refl, refl)
  | inr gone ↦ (t, rw gone refl, o.watched gone)
]
  where
    fired_of : (t.upward ≡ false) ⊎ (t.downward ≡ false) → t.broken ≡ true
    fired_of (inl e) = o.once ∙ o.up_fired e
    fired_of (inr e) = o.once ∙ o.down_fired e

-- However the goroutines of transportDirect take turns and whatever their calls return, none of them
-- panics: the channel is closed at most once. Where the function has returned, both connections are
-- closed; and where a copy has ended in either direction, the watcher's next turn closes the agent's
-- connection, if it is not closed yet.
pub tunnel_closes :
    (events : List Event)
    → (t : Tunnel) × (run events opened ≡ done t)
      × (t.downward ≡ false → (t.near_closed ≡ true) × (t.far_closed ≡ true))
      × ((t.upward ≡ false) ⊎ (t.downward ≡ false)
          → (t' : Tunnel) × (run (events ++ watch false ∷ []) opened ≡ done t')
            × (t'.far_closed ≡ true))
unfolding run step
tunnel_closes events =
    let (t, ends, o, on) = run-Keeps events opened opened-IsOrderly in
    (
      t,
      ends,
      o.returned,
      λ over.
          let (t', goes, shut) = woken t o over in
          (t', on (watch false ∷ []) ∙ rw (run, goes) refl, shut),
    )
