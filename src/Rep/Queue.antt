-- ===== src/Rep/Queue.antt =====
-- `remove_and_add_source`: the commands that open a source anew, put into the queue.
use bsreadrepeater.Base.{
  Bytes, ◌∷◌, set, ◌+◌, List, done, [], take, if◌then◌else◌, ◌>>◌, ltb, ok, ◌++◌, Action,
}
use bsreadrepeater.Channel.{Chnhandler, Sockout}
use bsreadrepeater.Channel.Outputs.{bsr_chnhandler_outputs_count}
use bsreadrepeater.Memreq.{update_queue, Shared, bsr_memreq_free_len, bsr_memreq_next_cmd_buf}
use bsreadrepeater.Text.{codes}
use bsreadrepeater.Zmq.{Env}

-- `bsr_memreq_next_cmd_buf` and then `snprintf` with OUTQ_ITEM_LEN into the slot.
unfoldable pub queue_text : Env → Bytes → Action Shared
unfolding bsr_memreq_next_cmd_buf
queue_text env text s =
    (bsr_memreq_next_cmd_buf env
        >> update_queue (λ m. record m { outq = set m.outq s.self.outq_wp (take 255 text) }))
      s

abbrev pub remove_text : Bytes → Bytes
remove_text src = codes "remove-source," ++ src

abbrev pub add_text : Bytes → Bytes
add_text src = codes "add-source," ++ src

abbrev pub output_text : Bytes → Bytes → Bytes
output_text src out = codes "add-output," ++ (src ++ b',' ∷ out)

-- The loop over the outputs.
unfoldable pub queue_outputs : Env → Bytes → List Sockout → Action Shared
queue_outputs env src [] = done
queue_outputs env src (so ∷ outs) =
    queue_text env (output_text src so.addr) >> queue_outputs env src outs

unfoldable pub remove_and_add_source : {F : Type 0} → Env → Chnhandler F → Action Shared
unfolding queue_text queue_outputs bsr_memreq_free_len bsr_chnhandler_outputs_count
remove_and_add_source env h2 s =
    if ltb (bsr_memreq_free_len s.self) (2 + bsr_chnhandler_outputs_count h2)
    then (ok, s)
    else (queue_text env (remove_text h2.addr_inp)
          >> queue_text env (add_text h2.addr_inp)
          >> queue_outputs env h2.addr_inp h2.socks_out)
        s
