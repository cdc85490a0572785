-- ===== src/Link/Examples.antt =====
-- The host with a list for its queue, run on the lines of a run of the firmware.
use cpp_embedded_telemetry_l.Common.{ℕ, ◌≡◌, List, inl, inr}
use cpp_embedded_telemetry_l.Firmware.Main.Examples.{
  working, last_state, last_state-Reach, last_state-exited,
}
use cpp_embedded_telemetry_l.Host.Buffer.Fifo.{fifo, fifo_push-ne-throws, fifo_pop-ne-throws}
use cpp_embedded_telemetry_l.Host.Pipeline.{Exit, MainThread, Step, Reach, start}
use cpp_embedded_telemetry_l.Host.Pipeline.Invariant.{Throws}
use cpp_embedded_telemetry_l.Common.Inevitable.{Inevitably}
use cpp_embedded_telemetry_l.Link.{received_inputs, firmware_snapshot, host_reads-firmware}

abbrev inputs : List (List ℕ)
inputs = received_inputs last_state.output

inputs-quiet : ¬ Throws fifo inputs
inputs-quiet (inl (s, x, e)) = fifo_push-ne-throws s x e
inputs-quiet (inr (s, e)) = fifo_pop-ne-throws s e

host_reads-firmware_example :
    Inevitably
      (Step fifo)
      (λ z. z.main ≡ MainThread.exited (Exit.reported firmware_snapshot))
      (start fifo inputs)
host_reads-firmware_example =
    host_reads-firmware working fifo last_state last_state-Reach last_state-exited inputs-quiet
      (start fifo inputs) Reach.here
