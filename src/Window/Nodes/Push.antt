-- ===== src/Window/Nodes/Push.antt =====
-- `window_push` of src/window.c on the nodes, and the calls that leave the nodes alone.
use lossless_transport.Common.{
  add_size, ◌≡◌, refl, inl, inr, false, none, some, List, ◌∷◌, ◌==◌, arith, Bool-cases, returns,
  Option,
}
use lossless_transport.Packet.{Pkt}
use lossless_transport.Window
use lossless_transport.Window.{Window, Code, done, failed}
use lossless_transport.Window.Nodes.{
  Pointer, null, Memory, LinkedWindow, Cmd, window_push, window_full, put,
}
use lossless_transport.Window.Nodes.Linked.{Item, view, IsLinked, Chain-frame, node, has_node-none}
use lossless_transport.Window.Nodes.Calls.{
  Follows, Answer, code, answers, Agrees, pushes, Refines, Fits, perform, specify, after,
}

pub Follows-unchanged :
    (m : Memory) (w : LinkedWindow) (xs : List Item) (c : Cmd (Answer Pointer × LinkedWindow))
    (a : Answer Pointer) (r : Answer (Option Pkt)) (u : Window)
    → c m ≡ returns ((a, w), m)
    → IsLinked m w xs
    → view w xs ≡ u
    → Agrees m a r
    → Follows m xs xs c r u
Follows-unchanged m w xs c a r u e l v g = record {
  memory = m;
  window = w;
  answer = a;
  returned = e;
  linked = l;
  viewed = v;
  agrees = g;
  nodes = λ b n. ground arith;
  packets = λ b n. refl;
}

module _ (m : Memory) (w : LinkedWindow) (xs : List Item) (l : IsLinked m w xs) (fresh p : Pointer)
    (v : Pkt) where
  abbrev pub new_item : Item
  new_item = record { at = fresh; pkt = p; val = v }

  push-fails :
      window_push fresh w p m ≡ returns ((failed, w), m)
      → Follows m xs xs (answers code (window_push fresh w p)) (code failed) (view w xs)
  push-fails e =
      Follows-unchanged m w xs (answers code (window_push fresh w p)) (code failed) (code failed)
        (view w xs) (rw e) l refl refl

  abbrev pub pushed : LinkedWindow
  pushed = record w { front = fresh; bufsize = add_size w.bufsize 1 }

  push-Follows :
      (fresh == null) ≡ false
      → Fits m xs (pushes fresh p v)
      → window_push fresh w p m
        ≡ returns ((done, pushed), record m { nodes = put m.nodes fresh (some (node p w.front)) })
      → Follows m xs
          (new_item ∷ xs)
          (answers code (window_push fresh w p))
          (code done)
          (view pushed (new_item ∷ xs))
  unfolding put
  push-Follows n (f, q, e, o) r =
      let g : Memory = record m { nodes = put m.nodes fresh (some (node p w.front)) } in
      let none_there : m.nodes fresh ≡ none = ground arith in
      let out = has_node-none m xs fresh l.chain none_there in
      record {
        memory = g;
        window = pushed;
        answer = code done;
        returned = rw r;
        linked = record {
          front = refl;
          chain = (
            ground (arith, l.front),
            out,
            o,
            Chain-frame m g xs l.chain (λ a i. ground arith) (λ a i. refl),
          );
        };
        viewed = refl;
        agrees = refl;
        nodes = λ a i. ground arith;
        packets = λ a i. refl;
      }

  pub pushes-Refines :
      Fits m xs (pushes fresh p v)
      → Refines m w xs (pushes fresh p v) (specify (view w xs) (pushes fresh p v))
  unfolding perform specify after window_full Window.full Window.push
  pushes-Refines f = elim (Bool-cases (window_full w)) [
    | inl e ↦ rw e (push-fails (unfold window_push in rw e))
    | inr e ↦ elim (Bool-cases (fresh == null)) [
      | inl n ↦ rw (e, n) (push-fails (unfold window_push in rw (e, n)))
      | inr n ↦ rw (e, n) (push-Follows n f (unfold window_push in rw (e, n)))
    ]
  ]
