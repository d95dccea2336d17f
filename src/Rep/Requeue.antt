-- ===== src/Rep/Requeue.antt =====
-- What `remove_and_add_source` puts into the queue.
use bsreadrepeater.Base.{
  Bytes, length-set, ok, ◌<◌, ◌≡◌, ◌++◌, ◌∷◌, arith, ◌+◌, take, [], sym, length-append, ap, ◌≤◌,
  map, List, append_assoc, ◌∙◌, append-nil, Outcome, ◌>>◌, Action, length, refl, fault, fail, ◌⊎◌,
  map-append, not, inl, false, inr, ltb, true, if◌then◌else◌, ◌-◌, Bool,
}
use bsreadrepeater.Channel.{Sockout, Chnhandler}
use bsreadrepeater.Channel.Outputs.{outputs_count, bsr_chnhandler_outputs_count}
use bsreadrepeater.Memreq.{bsr_memreq_next_cmd_buf, Shared, outq_len_max, bsr_memreq_free_len}
use bsreadrepeater.Memreq.Ring.{IsValid, window_push, contents}
use bsreadrepeater.Rep.Queue.{
  queue_text, queue_outputs, output_text, remove_text, remove_and_add_source, add_text,
}
use bsreadrepeater.Zmq.{Env, called, Log}

-- The last call was refused.
unfoldable pub refused : Log → Bool
refused (called r b ∷ log) = not b
refused _ = false

module _ (env : Env) where
  queue_text-IsValid :
      (text : Bytes) (s : Shared) → IsValid s.self → IsValid (queue_text env text s).1.self
  unfolding queue_text bsr_memreq_next_cmd_buf
  queue_text-IsValid text s v =
      ground (arith, length-set s.self.outq s.self.outq_wp (take 255 text))

  queue_text-len :
      (text : Bytes) (s : Shared)
      → s.self.outq_len < outq_len_max
      → (queue_text env text s).1.self.outq_len ≡ s.self.outq_len + 1
  unfolding queue_text bsr_memreq_next_cmd_buf
  queue_text-len text s l = ground arith

  queue_text-takes :
      (text : Bytes) (s : Shared)
      → IsValid s.self
      → s.self.outq_len < outq_len_max
      → (queue_text env text s).0 ≡ ok
      → contents (queue_text env text s).1.self ≡ contents s.self ++ take 255 text ∷ []
  unfolding queue_text bsr_memreq_next_cmd_buf
  queue_text-takes text s v l o =
      ground (arith, window_push q (take 255 text) len rp wp v.slots v.read_in)
    where
      open s.self use {outq as q, outq_len as len, outq_rp as rp, outq_wp as wp}

  -- What a run of texts leaves in the queue, if it returns 0.
  abbrev Takes : List Bytes → Shared → Outcome × Shared → Type 0
  Takes texts s r =
      IsValid r.1.self
      × (r.0 ≡ ok
          → (contents r.1.self ≡ contents s.self ++ map (take 255) texts)
            × (r.1.self.outq_len ≡ s.self.outq_len + length texts))
      × ((r.0 ≡ ok) ⊎ (refused r.1.log ≡ true))

  queue_text-refused :
      (text : Bytes) (s : Shared)
      → s.self.outq_len < outq_len_max
      → ((queue_text env text s).0 ≡ ok) ⊎ (refused (queue_text env text s).1.log ≡ true)
  unfolding queue_text bsr_memreq_next_cmd_buf refused
  queue_text-refused text s l = ground arith

  queue_text-Takes :
      (text : Bytes) (s : Shared)
      → IsValid s.self
      → s.self.outq_len < outq_len_max
      → Takes (text ∷ []) s (queue_text env text s)
  queue_text-Takes text s v l = (
    queue_text-IsValid text s v,
    λ o. (queue_text-takes text s v l o, queue_text-len text s l),
    queue_text-refused text s l,
  )

  then-Takes :
      (xs ys : List Bytes) (m k : Action Shared) (s : Shared)
      → Takes xs s (m s)
      → ((m s).0 ≡ ok → Takes ys (m s).1 (k (m s).1))
      → Takes (xs ++ ys) s ((m >> k) s)
  then-Takes xs ys m k s t u = go (m s) t u
    where
      go :
          (x : Outcome × Shared)
          → Takes xs s x
          → (x.0 ≡ ok → Takes ys x.1 (k x.1))
          → Takes (xs ++ ys) s (((λ q. x) >> k) s)
      go (ok, s') t u = (
        (u refl).0,
        λ o. (
          ((u refl).1 o).0
              ∙ ap (λ q. q ++ map (take 255) ys) (t.1 refl).0
              ∙ append_assoc (contents s.self) (map (take 255) xs) (map (take 255) ys)
              ∙ ap (λ q. contents s.self ++ q) (sym (map-append (take 255) xs ys)),
          omega (arith, ((u refl).1 o).1, (t.1 refl).1, length-append xs ys),
        ),
        (u refl).2,
      )
      go (fail, s') t u = (t.0, (λ o. cc), t.2)
      go (fault, s') t u = (t.0, (λ o. cc), t.2)

  abbrev output_texts : Bytes → List Sockout → List Bytes
  output_texts src outs = map (λ so. output_text src so.addr) outs

  queue_outputs-Takes :
      (src : Bytes) (outs : List Sockout) (s : Shared)
      → IsValid s.self
      → s.self.outq_len + outputs_count outs ≤ outq_len_max
      → Takes (output_texts src outs) s (queue_outputs env src outs s)
  unfolding queue_outputs outputs_count
  queue_outputs-Takes src [] s v l =
      (v, λ o. (sym (append-nil (contents s.self)), omega arith), inl refl)
  queue_outputs-Takes src (so ∷ outs) s v l =
      let t = queue_text-Takes (output_text src so.addr) s v (omega (arith, l)) in
      then-Takes (output_text src so.addr ∷ []) (output_texts src outs)
        (queue_text env (output_text src so.addr)) (queue_outputs env src outs) s t
        (λ o.
          queue_outputs-Takes src outs (queue_text env (output_text src so.addr) s).1 t.0
            (omega (arith, l, (t.1 o).1)))

  -- The commands that open a source anew, in the slots of the queue.
  abbrev pub source_texts : {F : Type 0} → Chnhandler F → List Bytes
  source_texts h =
      map (take 255)
        (remove_text h.addr_inp ∷ add_text h.addr_inp ∷ output_texts h.addr_inp h.socks_out)

  with_room :
      {F : Type 0} (h : Chnhandler F) (s : Shared)
      → IsValid s.self
      → s.self.outq_len + (2 + outputs_count h.socks_out) ≤ outq_len_max
      → Takes
          (remove_text h.addr_inp ∷ add_text h.addr_inp ∷ output_texts h.addr_inp h.socks_out)
          s
          ((queue_text env (remove_text h.addr_inp)
              >> queue_text env (add_text h.addr_inp)
              >> queue_outputs env h.addr_inp h.socks_out)
            s)
  with_room h s v l =
      let t = queue_text-Takes (remove_text h.addr_inp) s v (omega (arith, l)) in
      let u =
        then-Takes (remove_text h.addr_inp ∷ []) (add_text h.addr_inp ∷ [])
          (queue_text env (remove_text h.addr_inp)) (queue_text env (add_text h.addr_inp)) s t
          (λ o.
            queue_text-Takes (add_text h.addr_inp) (queue_text env (remove_text h.addr_inp) s).1 t.0
              (omega (arith, l, (t.1 o).1))) in
      then-Takes (remove_text h.addr_inp ∷ add_text h.addr_inp ∷ [])
        (output_texts h.addr_inp h.socks_out)
        (queue_text env (remove_text h.addr_inp) >> queue_text env (add_text h.addr_inp))
        (queue_outputs env h.addr_inp h.socks_out) s u
        (λ o. queue_outputs-Takes h.addr_inp h.socks_out _ u.0 (omega (arith, l, (u.1 o).1)))

  -- `remove_and_add_source` keeps the queue valid. If the queue has no room for all the commands, it
  -- changes nothing and returns 0. Otherwise it puts behind the others, in this order, the command that
  -- removes the source, the one that adds it, and one for each of its outputs, each cut to the 255 bytes
  -- of a slot, unless the poller refuses a call, which then is the last.
  pub remove_and_add_source_lem :
      {F : Type 0} (h : Chnhandler F) (s : Shared)
      → IsValid s.self
      → let r = remove_and_add_source env h s in
        IsValid r.1.self
        × ((outq_len_max < s.self.outq_len + (2 + bsr_chnhandler_outputs_count h)) × (r ≡ (ok, s))
            ⊎ (r.0 ≡ ok) × (contents r.1.self ≡ contents s.self ++ source_texts h)
            ⊎ (refused r.1.log ≡ true))
  unfolding remove_and_add_source bsr_memreq_free_len bsr_chnhandler_outputs_count
  remove_and_add_source_lem h s v =
      by_room (ltb (outq_len_max - s.self.outq_len) (2 + outputs_count h.socks_out)) refl
    where
      queued : Outcome × Shared
      queued =
          (queue_text env (remove_text h.addr_inp)
              >> queue_text env (add_text h.addr_inp)
              >> queue_outputs env h.addr_inp h.socks_out)
            s

      Goal : Outcome × Shared → Type 0
      Goal r =
          IsValid r.1.self
          × ((outq_len_max < s.self.outq_len + (2 + outputs_count h.socks_out)) × (r ≡ (ok, s))
              ⊎ (r.0 ≡ ok) × (contents r.1.self ≡ contents s.self ++ source_texts h)
              ⊎ (refused r.1.log ≡ true))

      by_room :
          (b : Bool)
          → ltb (outq_len_max - s.self.outq_len) (2 + outputs_count h.socks_out) ≡ b
          → Goal (if b then (ok, s) else queued)
      by_room true e = (v, inl (ground (arith, v.filled), refl))
      by_room false e =
          let t = with_room h s v (ground (arith, v.filled)) in
          (t.0, elim t.2 [ inl o ↦ inr (inl (o, (t.1 o).0)) | inr f ↦ inr (inr f) ])
