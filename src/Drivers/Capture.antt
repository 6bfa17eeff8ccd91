-- ===== src/Drivers/Capture.antt =====
-- The capture of the input signal and the sending of the answer on the same wire
-- (rm32_stm32/src/capture_generic.rs over the traits of capture_hal.rs).
use rm32_private.Base.{ℕ, ◌+◌, ◌/◌, Bool, true, false, List, [], ◌∷◌, ◌++◌, replicate}

-- The two memories that the DMA channel is pointed at, and the calls of `DmaOps` and `TimerOps`.
pub data Memory : Type 0 where
  dma_memory gcr_memory : Memory

pub data CaptureCall : Type 0 where
  disable set_par start_rx start_tx reset start : CaptureCall
  set_mar : Memory → CaptureCall
  set_ndtr configure_capture configure_output : ℕ → CaptureCall

pub record GenericCapture : Type 0 where
  pub buffer_size : ℕ
  pub out_put : Bool
  pub dma_buf : List ℕ
  pub gcr_buf : List ℕ
  pub calls : List CaptureCall

abbrev pub new : GenericCapture
new = record {
  buffer_size = 32;
  out_put = false;
  dma_buf = replicate 64 0;
  gcr_buf = replicate 37 0;
  calls = [];
}

unfoldable pub receive_dshot_dma : GenericCapture → GenericCapture
receive_dshot_dma c = record c {
  out_put = false;
  calls =
      c.calls
      ++ (disable
          ∷ reset
          ∷ configure_capture 0
          ∷ set_mar dma_memory
          ∷ set_par
          ∷ set_ndtr c.buffer_size
          ∷ start_rx
          ∷ start
          ∷ []);
}

unfoldable pub send_dshot_dma : GenericCapture → GenericCapture
send_dshot_dma c = record c {
  out_put = true;
  calls =
      c.calls
      ++ (disable
          ∷ reset
          ∷ configure_output 92
          ∷ set_mar gcr_memory
          ∷ set_par
          ∷ set_ndtr (23 + c.buffer_size / 4)
          ∷ start_tx
          ∷ start
          ∷ []);
}
