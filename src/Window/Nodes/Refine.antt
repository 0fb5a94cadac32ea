-- ===== src/Window/Nodes/Refine.antt =====
-- The functions of src/window.c on the nodes do what they do on the list of packets.
use lossless_transport.Common.{
  ℕ, ◌+◌, ◌≡◌, ◌≤◌, refl, sym, ◌∙◌, inl, inr, none, some, List, arith, leb, ltb, length, Bool-cases,
  returns,
}
use lossless_transport.Window
use lossless_transport.Window.{Code, done, failed}
use lossless_transport.Window.Invariant.{IsSound}
use lossless_transport.Window.Nodes.{
  null, Memory, LinkedWindow, front_field, put, window_slide, window_slide_to, window_resize,
  window_find_seqnum, window_update_timestamp,
}
use lossless_transport.Window.Nodes.Linked.{Item, view, IsLinked, get_elem?-vals, length-vals}
use lossless_transport.Window.Nodes.Walk.{find_loop_lem}
use lossless_transport.Window.Nodes.Restamp.{
  restamp, rewritten, update_loop_lem, first-restamp, has_node-restamp,
}
use lossless_transport.Window.Nodes.Calls.{
  Call, slides, slides_to, resizes, pushes, finds_seqnum, updates_timestamp, pops_timestamp,
  peeks_min_timestamp, pops_min_timestamp, peeks_min_seqnum, pops_min_seqnum, nothing, code, packet,
  answers_same, perform, specify, after, Fits, Refines,
}
use lossless_transport.Window.Nodes.Push.{Follows-unchanged, pushes-Refines}
use lossless_transport.Window.Nodes.Take.{
  place_from-at, leads, pops_timestamp-Refines, peeks_min_timestamp-Refines,
  pops_min_timestamp-Refines, peeks_min_seqnum-Refines, pops_min_seqnum-Refines,
}

module _ (m : Memory) (w : LinkedWindow) (xs : List Item) (l : IsLinked m w xs) where
  slides-Refines : Refines m w xs slides (specify (view w xs) slides)
  unfolding perform specify after window_slide Window.slide
  slides-Refines =
      Follows-unchanged m (window_slide w) xs (perform w slides) nothing nothing
        (view (window_slide w) xs) refl (record { front = l.front; chain = l.chain }) refl tt

  -- A call that changes neither memory nor the nodes.
  scalars-Refines :
      (c : Call) (w' : LinkedWindow) (k : Code)
      → specify (view w xs) c ≡ some (code k, view w' xs)
      → perform w c m ≡ returns ((code k, w'), m)
      → after (view w xs) xs c ≡ xs
      → IsLinked m w' xs
      → Refines m w xs c (specify (view w xs) c)
  scalars-Refines c w' k s e a l' =
      rw (s, a)
        (Follows-unchanged m w' xs (perform w c) (code k) (code k) (view w' xs) e l' refl refl)

  slides_to-Refines : (n : ℕ) → Refines m w xs (slides_to n) (specify (view w xs) (slides_to n))
  unfolding after
  slides_to-Refines n = elim (Bool-cases (leb n w.max_seqnum)) [
    | inl e ↦
        let w' : LinkedWindow = record w { pos = n } in
        let s : specify (view w xs) (slides_to n) ≡ some (nothing, view w' xs) =
          unfold specify Window.slide_to in rw (specify, Window.slide_to, e) in
        rw s (
          Follows-unchanged m w' xs (perform w (slides_to n)) nothing nothing (view w' xs)
            (unfold perform window_slide_to in rw e) (record { front = l.front; chain = l.chain })
            refl tt)
    | inr e ↦
        let s : specify (view w xs) (slides_to n) ≡ none =
          unfold specify Window.slide_to in rw (specify, Window.slide_to, e) in
        rw s (unfold perform window_slide_to in rw e)
  ]

  resizes-Refines : (n : ℕ) → Refines m w xs (resizes n) (specify (view w xs) (resizes n))
  resizes-Refines n = elim (Bool-cases (ltb w.capacity n)) [
    | inl e ↦
        scalars-Refines (resizes n) w failed (unfold specify Window.resize in rw e)
          (unfold perform window_resize in rw e) (unfold after in refl) l
    | inr e ↦
        scalars-Refines (resizes n) (record w { size = n }) done
          (unfold specify Window.resize in rw e) (unfold perform window_resize in rw e)
          (unfold after in refl) (record { front = l.front; chain = l.chain })
  ]

  module _ (f : length xs ≤ w.bufsize) where
    finds_seqnum-Refines :
        (s : ℕ) → Refines m w xs (finds_seqnum s) (specify (view w xs) (finds_seqnum s))
    unfolding perform specify after window_find_seqnum Window.find_seqnum
    finds_seqnum-Refines s =
        let c = answers_same packet w (window_find_seqnum w s) in
        elim (find_loop_lem m w s (w.bufsize + 1) 0 xs l.chain (omega arith)) [
          | inl (a, e) ↦ rw a (
              Follows-unchanged m w xs c (packet null) (packet none) (view w xs) (rw (l.front, e)) l
                refl refl)
          | inr (i, b, g, a, e) ↦
              let (q, d, h) = place_from-at m w front_field xs i (leads m w xs l) l.chain g in
              let z : 0 + i ≡ i = omega arith in
              rw (a, z, get_elem?-vals xs i g)
                (Follows-unchanged m w xs c (packet b.pkt) (packet (some b.val)) (view w xs)
                  (rw (l.front, e)) l refl (h.pkt_ne_null, h.packet_at))
        ]

    updates_timestamp-Refines :
        (old new : ℕ)
        → Refines m w xs
            (updates_timestamp old new)
            (specify (view w xs) (updates_timestamp old new))
    updates_timestamp-Refines old new =
        let o = updates_timestamp old new in
        elim (update_loop_lem m old new (w.bufsize + 1) xs l.chain (omega arith)) [
          | inl (a, s, e) ↦
              scalars-Refines o w failed
                (unfold specify Window.update_timestamp in rw (Window.update_timestamp, a))
                (unfold perform window_update_timestamp in rw (l.front, e)) (unfold after in s) l
          | inr (b, r, e) ↦
              let u = view w (restamp old new xs) in
              let s : specify (view w xs) o ≡ some (code done, u) =
                unfold specify Window.update_timestamp in rw (Window.update_timestamp, r.listed) in
              let t : after (view w xs) xs o ≡ restamp old new xs = unfold after in refl in
              rw (s, t)
                (record {
                  memory = rewritten m b new;
                  window = w;
                  answer = code done;
                  returned = unfold perform window_update_timestamp in rw (l.front, e);
                  linked = record {
                    front = l.front ∙ sym (first-restamp old new xs);
                    chain = r.chain;
                  };
                  viewed = refl;
                  agrees = refl;
                  nodes = λ a n. ground (arith, has_node-restamp old new xs a);
                  packets = λ a n. unfold put in ground (arith, r.inside);
                })
        ]

-- On memory that holds the list of a sound window, a call that fits it returns what it returns on
-- the list of packets, by an address of the packet; the window stands for the list that it leaves
-- there. No address that is not allocated is read or freed, each walk ends, what leaves the list is
-- freed, and no other node and no packet outside the buffer is changed. An assertion fails where it
-- fails there.
pub perform-Refines :
    (m : Memory) (w : LinkedWindow) (xs : List Item) (c : Call)
    → IsLinked m w xs
    → IsSound (view w xs)
    → Fits m xs c
    → Refines m w xs c (specify (view w xs) c)
perform-Refines m w xs c l v h =
    let f : length xs ≤ w.bufsize = omega (arith, v.buffer.counted, length-vals xs) in go c h f
  where
    go : (c : Call) → Fits m xs c → length xs ≤ w.bufsize → Refines m w xs c (specify (view w xs) c)
    go slides h f = slides-Refines m w xs l
    go (slides_to n) h f = slides_to-Refines m w xs l n
    go (resizes n) h f = resizes-Refines m w xs l n
    go (pushes fresh p v) h f = pushes-Refines m w xs l fresh p v h
    go (finds_seqnum s) h f = finds_seqnum-Refines m w xs l f s
    go (updates_timestamp old new) h f = updates_timestamp-Refines m w xs l f old new
    go (pops_timestamp t) h f = pops_timestamp-Refines m w xs l t f
    go peeks_min_timestamp h f = peeks_min_timestamp-Refines m w xs l f
    go pops_min_timestamp h f = pops_min_timestamp-Refines m w xs l f
    go peeks_min_seqnum h f = peeks_min_seqnum-Refines m w xs l f
    go pops_min_seqnum h f = pops_min_seqnum-Refines m w xs l f
