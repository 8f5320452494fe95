-- ===== src/Pool/Laws/Returns.antt =====
-- Giving a guest back: `free_vm` after a session, and `reuse_vm` when the guest was not touched.
use vo_iphoneypot.Common.{
  Bool, List, Text, [], ap, arith, contains, get_elem?, if◌then◌else◌, inr, pos, refl, some, suc,
  true, zero, ℕ, ℤ, ◌&&◌, ◌+ℤ◌, ◌-ℤ◌, ◌==◌, ◌∙◌, ◌∷◌, ◌≡◌,
}
use vo_iphoneypot.Pool.Backend.{World}
use vo_iphoneypot.Pool.Consumer.{
  add_ip, choose_guest, claim, claim_at, free_vm, freed, reuse_vm, reused,
}
use vo_iphoneypot.Pool.Guest.{Guest, absent, in_states, unavailable, used, using}
use vo_iphoneypot.Pool.Laws.Positions.{
  find_index-update_at_hit, get_elem?-update_at, get_elem?-update_where, update_at-update_at,
  update_first_at,
}
use vo_iphoneypot.Pool.Laws.Requests.{request_vm_chosen}
use vo_iphoneypot.Pool.Laws.Sharing.{CanServe, serves_already}
use vo_iphoneypot.Pool.Producer.{mark_timed_out, timed_out}
use vo_iphoneypot.Pool.Service.{request_vm}
use vo_iphoneypot.Pool.State.{Service, find_index, update_at, update_first}

abbrev by_id : ℕ → Guest → Bool
by_id n g = g.id == n

-- The search by id finds a guest at the place where its entry was changed, if the id was kept.
still_found :
    (f : Guest → Guest) (gs : List Guest) (i : ℕ) (g : Guest)
    → find_index (by_id g.id) gs ≡ some i
    → get_elem? gs i ≡ some g
    → (f g).id ≡ g.id
    → find_index (by_id g.id) (update_at i f gs) ≡ some i
still_found f gs i g first at same =
    find_index-update_at_hit (by_id g.id) f gs i g first at (ground (arith, same))

update_at_const :
    (i : ℕ) (f : Guest → Guest) (gs : List Guest) (g : Guest)
    → get_elem? gs i ≡ some g
    → update_at i f gs ≡ update_at i (λ _. f g) gs
unfolding update_at
update_at_const i f [] g h = refl
update_at_const zero f (x ∷ gs) g h = ground arith
update_at_const (suc i) f (x ∷ gs) g h = rw (update_at_const i f gs g h)

reused-claim :
    (ip : Text) (g : Guest)
    → g.connected ≡ pos 0
    → reused (claim ip g) ≡ record g { prev_state = absent; client_ips = add_ip ip g.client_ips }
unfolding reused claim ◌+ℤ◌ ◌-ℤ◌
reused-claim ip g none_connected = ground arith

-- A guest that nobody used is requested and given back by `reuse_vm`: it is as it was before, with
-- the same state, except that the attacker's address stays with it and `prev_state` is cleared; and
-- no other guest changes. The guest must be the first one with its id.
pub reuse_vm_restores :
    (w : World) (ip : Text) (s : Service) (i : ℕ) (g : Guest)
    → choose_guest s.share_guests ip s.guests ≡ some i
    → get_elem? s.guests i ≡ some g
    → find_index (λ x. x.id == g.id) s.guests ≡ some i
    → g.connected ≡ pos 0
    → (reuse_vm g.id (request_vm w ip s).0).guests
      ≡ update_at i
          (λ _. record g { prev_state = absent; client_ips = add_ip ip g.client_ips })
          s.guests
reuse_vm_restores w ip s i g chosen at first none_connected =
    rw (request_vm_chosen w ip s i g chosen at) (
      unfold reuse_vm claim_at in
      update_first_at (by_id g.id) reused _ i
        (still_found (claim ip) s.guests i g first at (unfold claim in refl))
      ∙ update_at-update_at i reused (claim ip) s.guests
      ∙ update_at_const i _ s.guests g at
      ∙ ap (λ x. update_at i (λ _. x) s.guests) (reused-claim ip g none_connected))

freed-claim :
    (now : ℤ) (ip : Text) (g : Guest)
    → g.connected ≡ pos 0
    → freed now (claim ip g) ≡ record g {
      state = used;
      prev_state = g.state;
      freed_timestamp = now;
      client_ips = add_ip ip g.client_ips;
    }
unfolding freed claim ◌+ℤ◌ ◌-ℤ◌
freed-claim now ip g none_connected = ground arith

-- A guest that nobody used is requested and freed: it is `used` from that time on, has no clients and
-- keeps the attacker's address; and no other guest changes. The guest must be the first one with its
-- id.
pub free_vm_retires :
    (w : World) (now : ℤ) (ip : Text) (s : Service) (i : ℕ) (g : Guest)
    → choose_guest s.share_guests ip s.guests ≡ some i
    → get_elem? s.guests i ≡ some g
    → find_index (λ x. x.id == g.id) s.guests ≡ some i
    → g.connected ≡ pos 0
    → (free_vm now g.id (request_vm w ip s).0).guests
      ≡ update_at i
          (λ _. record g {
            state = used;
            prev_state = g.state;
            freed_timestamp = now;
            client_ips = add_ip ip g.client_ips;
          })
          s.guests
free_vm_retires w now ip s i g chosen at first none_connected =
    rw (request_vm_chosen w ip s i g chosen at) (
      unfold free_vm claim_at in
      update_first_at (by_id g.id) (freed now) _ i
        (still_found (claim ip) s.guests i g first at (unfold claim in refl))
      ∙ update_at-update_at i (freed now) (claim ip) s.guests
      ∙ update_at_const i _ s.guests g at
      ∙ ap (λ x. update_at i (λ _. x) s.guests) (freed-claim now ip g none_connected))

-- Two connections to one guest, both given back by `reuse_vm`.
reused_twice :
    (ip ip' : Text) (g : Guest)
    → g.connected ≡ pos 0
    → (reused (reused (claim ip' (claim ip g)))).state ≡ using
unfolding reused claim ◌+ℤ◌ ◌-ℤ◌
reused_twice ip ip' g none_connected = ground arith

reused_twice_count :
    (ip ip' : Text) (g : Guest)
    → g.connected ≡ pos 0
    → (reused (reused (claim ip' (claim ip g)))).connected ≡ pos 0
unfolding reused claim ◌+ℤ◌ ◌-ℤ◌
reused_twice_count ip ip' g none_connected = ground arith

-- `reuse_vm` after changes of one entry is one more change of that entry.
reuse_after :
    (f : Guest → Guest) (gs : List Guest) (i : ℕ) (g : Guest)
    → find_index (by_id g.id) gs ≡ some i
    → get_elem? gs i ≡ some g
    → (f g).id ≡ g.id
    → update_first (by_id g.id) reused (update_at i f gs) ≡ update_at i (λ x. reused (f x)) gs
reuse_after f gs i g first at same =
    update_first_at (by_id g.id) reused _ i (still_found f gs i g first at same)
    ∙ update_at-update_at i reused f gs

reused_twice_at :
    (ip ip' : Text) (gs : List Guest) (i : ℕ) (g : Guest)
    → find_index (by_id g.id) gs ≡ some i
    → get_elem? gs i ≡ some g
    → update_first
        (by_id g.id)
        reused
        (update_first (by_id g.id) reused (update_at i (claim ip') (update_at i (claim ip) gs)))
      ≡ update_at i (λ x. reused (reused (claim ip' (claim ip x)))) gs
unfolding reused claim
reused_twice_at ip ip' gs i g first at =
    ap (λ l. update_first (by_id g.id) reused (update_first (by_id g.id) reused l))
      (update_at-update_at i (claim ip') (claim ip) gs)
    ∙ ap (update_first (by_id g.id) reused)
        (reuse_after (λ x. claim ip' (claim ip x)) gs i g first at refl)
    ∙ reuse_after (λ x. reused (claim ip' (claim ip x))) gs i g first at refl

unless_timed_out :
    (w : World) (timeout : ℕ) (g : Guest)
    → g.state ≡ using
    → some (
        if in_states (used ∷ []) g.state && timed_out w timeout g
        then record g { state = unavailable }
        else g)
      ≡ some g
unless_timed_out w timeout g h = rw h

-- Where two requests meet at one guest that nobody used, and both give it back by `reuse_vm`, the
-- guest has no client and yet stays in state `using`, whatever its state was before: the second
-- request overwrote `prev_state`. No pass of `__producer_mark_timed_out` changes it from then on.
pub reuse_vm_sticks :
    (w : World) (timeout : ℕ) (ip ip' : Text) (s : Service) (i : ℕ) (g : Guest)
    → get_elem? s.guests i ≡ some g
    → find_index (λ x. x.id == g.id) s.guests ≡ some i
    → g.connected ≡ pos 0
    → (let s' = reuse_vm g.id (reuse_vm g.id (claim_at i ip' (claim_at i ip s))) in
        (g' : Guest) × (get_elem? s'.guests i ≡ some g')
        × (g'.state ≡ using)
        × (g'.connected ≡ pos 0)
        × (get_elem? (mark_timed_out w timeout s').guests i ≡ some g'))
unfolding reuse_vm claim_at mark_timed_out
reuse_vm_sticks w timeout ip ip' s i g at first none_connected =
    let end : Guest = reused (reused (claim ip' (claim ip g))) in
    let stays = reused_twice ip ip' g none_connected in
    let here =
      ap (λ gs. get_elem? gs i) (reused_twice_at ip ip' s.guests i g first at)
      ∙ get_elem?-update_at i _ s.guests g at in
    (
      end,
      here,
      stays,
      reused_twice_count ip ip' g none_connected,
      get_elem?-update_where _ _ i _ end here ∙ unless_timed_out w timeout end stays,
    )

revived : (now : ℤ) (g : Guest) → g.connected ≡ pos 1 → (freed now g).state ≡ used
unfolding freed ◌-ℤ◌
revived now g one = ground arith

-- When its last client leaves, a guest becomes `used` whatever its state was: one that was already
-- marked `unavailable`, or is `destroyed`, can then be granted again to an address that it served,
-- with the same domain.
pub free_vm_revives :
    (now : ℤ) (ip : Text) (s : Service) (i : ℕ) (g : Guest)
    → get_elem? s.guests i ≡ some g
    → find_index (λ x. x.id == g.id) s.guests ≡ some i
    → g.connected ≡ pos 1
    → contains ip g.client_ips ≡ true
    → (g' : Guest) × (get_elem? (free_vm now g.id s).guests i ≡ some g')
      × (g'.state ≡ used)
      × (g'.domain ≡ g.domain)
      × CanServe s.share_guests ip g'
unfolding free_vm
free_vm_revives now ip s i g at first one known =
    let back = revived now g one in
    (
      freed now g,
      ap (λ gs. get_elem? gs i) (update_first_at (by_id g.id) (freed now) s.guests i first)
          ∙ get_elem?-update_at i (freed now) s.guests g at,
      back,
      unfold freed in refl,
      serves_already (inr back) (unfold freed in known),
    )
