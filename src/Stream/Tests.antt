-- ===== src/Stream/Tests.antt =====
-- Runs of the pipeline, and its properties at concrete inputs.
use mathlib.Core.List.{Perm}
use cap_mesh.Prelude.{ℕ, ◌≡◌, refl, true, false, List, [], ◌∷◌, ◌++◌, map, arith, iterate}
use cap_mesh.Text.{text, text_eq}
use cap_mesh.Domain.{Packet, PacketBatch, no_source}
use cap_mesh.Stream.Heap.{heap_rest}
use cap_mesh.Stream.{RebatchConfig, Pipeline, Subscriber, emit_until}
use cap_mesh.Stream.Emit.{NoneDue}
use cap_mesh.Stream.Emit.Conserve.{sent, pending, emit_until-conserves}
use cap_mesh.Stream.Emit.Limits.{AllWithin, everything, emit_until-limits, emit_until_complete}
use cap_mesh.Stream.Emit.Order.{sequence, IsOrdered, IsAhead}
use cap_mesh.Stream.Emit.Subscribers.{keep_live, receive_all, emit_until-serves}
use cap_mesh.Stream.Service.{new_pipeline, publish_to, run_tick}
use cap_mesh.Stream.Invariant.{IsSound}
use cap_mesh.Stream.Runs.{here, next, published, Reach-IsSound, tick-IsOrdered}

abbrev packet : ℕ → ℕ → Packet
packet time sequence_number = record {
  timestamp = time;
  captured_length = 60;
  original_length = 60;
  link_type = 1;
  sequence_number = sequence_number;
  payload = [];
}

abbrev batch : List Packet → PacketBatch
batch ps = record {
  session_id = text "s";
  node_name = text "n";
  interface_name = text "eth0";
  source = no_source;
  packets = ps;
}

abbrev config : RebatchConfig
config = record { max_packets = 2; max_bytes = 1000; max_delay = 0 }

abbrev fresh : Pipeline
fresh = new_pipeline 0 4 config

abbrev filled : Pipeline
filled = publish_to (batch (packet 9 1 ∷ packet 7 2 ∷ packet 8 3 ∷ [])) 10 fresh

-- Three packets that came out of order go out in order, two to a batch.
tick_run : sequence (run_tick 20 filled).batches ≡ packet 7 2 ∷ packet 8 3 ∷ packet 9 1 ∷ []
unfolding run_tick publish_to new_pipeline iterate text_eq heap_rest
tick_run = refl

abbrev watcher : Subscriber
watcher = record {
  id = 0;
  queue = [];
  capacity = 2;
  disconnect_on_drop = true;
  dropped = false;
  closed = false;
}

emit_until-conserves_example :
    Perm
      (sent (emit_until everything filled).batches
        ++ pending (emit_until everything filled).pipeline.heap)
      (pending filled.heap)
emit_until-conserves_example = emit_until-conserves everything filled

emit_until-limits_example : AllWithin filled.rebatch (emit_until everything filled).batches
unfolding publish_to new_pipeline
emit_until-limits_example = emit_until-limits everything filled (omega arith)

emit_until_complete_example :
    NoneDue everything (emit_until everything filled).pipeline.heap
    × ((emit_until everything filled).pipeline.heap ≡ [])
emit_until_complete_example = emit_until_complete everything filled

emit_until-serves_example :
    (emit_until everything filled).pipeline.subscribers
    ≡ keep_live (map (receive_all (emit_until everything filled).batches) filled.subscribers)
emit_until-serves_example = emit_until-serves everything filled

Reach-IsSound_example : IsSound filled
Reach-IsSound_example = Reach-IsSound 0 4 config (next here (published _ 10 fresh))

tick-IsOrdered_example :
    IsOrdered (sequence (run_tick 20 filled).batches)
    × IsAhead (sequence (run_tick 20 filled).batches) (run_tick 20 filled).pipeline.heap
tick-IsOrdered_example = tick-IsOrdered 0 4 config 20 (next here (published _ 10 fresh))
