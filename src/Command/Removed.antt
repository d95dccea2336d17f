-- ===== src/Command/Removed.antt =====
-- An event for a handler that an earlier event of the same batch has removed.
use bsreadrepeater.Base.{Bytes, ◌≡◌, some, none, ◌≢◌, ◌∙◌, ap, fault, ℕ, ok, Outcome}
use bsreadrepeater.Channel.{Outside}
use bsreadrepeater.Command.Deliver.{deliver_listed, Arrival, deliver_to}
use bsreadrepeater.Command.Reply.{Format}
use bsreadrepeater.Handlers.{
  handler_list_find_by_input_addr, remove_source_cmd, App, handler_list_remove, remove_id, Entry,
  lookup_id,
}
use bsreadrepeater.Handlers.Lookup.{lookup_id-remove_id_ne, lookup_id-remove_id}
use bsreadrepeater.Handlers.Sound.{IsSound}
use bsreadrepeater.JsonCommand.{JsonParser}
use bsreadrepeater.Split.{Timespec}

module _ {F : Type 0} (w : Outside F) (fmt : Format F) (parse : JsonParser) where
  remove_source_cmd-found :
      (src : Bytes) (e : Entry F) (a : App F)
      → handler_list_find_by_input_addr src a.handlers ≡ some e
      → (remove_source_cmd w src a).1.handlers ≡ remove_id e.id a.handlers
  unfolding remove_source_cmd handler_list_remove
  remove_source_cmd-found src e a f =
      ap
        (λ x.
          (elim x as (λ y. Outcome × App F) [
            | none ↦ (ok, a)
            | some e' ↦ handler_list_remove w e' a
          ]).1.handlers)
        f

  deliver_listed-none :
      (id events : ℕ) (arrival : Arrival) (tspoll : Timespec) (a : App F)
      → lookup_id id a.handlers ≡ none
      → deliver_listed w fmt parse id events arrival tspoll a ≡ (fault, a)
  unfolding deliver_listed
  deliver_listed-none id events arrival tspoll a h =
      ap
        (λ x. elim x as (λ y. Outcome × App F) [
          | none ↦ (fault, a)
          | some m ↦ deliver_to w fmt parse id m events arrival tspoll a
        ])
        h

  -- Removing a source takes exactly its handler out of the list: the others stay where they are. An event
  -- for the removed one that `zmq_poller_wait_all` has put into the same batch, behind the command, is
  -- delivered to memory that has been freed.
  pub removed_source_faults :
      (src : Bytes) (e : Entry F) (a : App F) (kept events : ℕ) (arrival : Arrival)
      (tspoll : Timespec)
      → IsSound a
      → handler_list_find_by_input_addr src a.handlers ≡ some e
      → kept ≢ e.id
      → let a' = (remove_source_cmd w src a).1 in
        (lookup_id kept a'.handlers ≡ lookup_id kept a.handlers)
        × (deliver_listed w fmt parse e.id events arrival tspoll a' ≡ (fault, a'))
  removed_source_faults src e a kept events arrival tspoll i f n =
      let c = remove_source_cmd-found src e a f in
      (
        ap (lookup_id kept) c ∙ lookup_id-remove_id_ne e.id kept a.handlers n,
        deliver_listed-none e.id events arrival tspoll (remove_source_cmd w src a).1
            (ap (lookup_id e.id) c ∙ lookup_id-remove_id e.id a.handlers 0 a.next_id i.ids),
      )
