-- ===== src/Stream/Batch.antt =====
-- The batched stream and the pump read the same bytes.
use agy_identity_bridge.Base.{◌≡◌, refl, ◌≢◌, Bool, true, false, some, List, [], ◌∷◌, All}
use agy_identity_bridge.Text.{Text}
use agy_identity_bridge.Stream.{
  Bridge, idle, leave, return_deferred, close_bridge, ok_envelope, executor_stream_batched,
  with_line_end, pump,
}
use agy_identity_bridge.Stream.Delivery.{script, buffered, pump-script}

module _ (b64 unb64 : Text → Text) (decodes : (s : Text) → unb64 (b64 s) ≡ s) where
  batched-script :
      (marked : Bool) (buffer : Text) (chunks : List Text)
      → executor_stream_batched unb64 buffer (script b64 marked chunks)
        ≡ some (ok_envelope (buffered buffer chunks))
  unfolding executor_stream_batched
  batched-script marked buffer [] = rw (decodes []) refl
  batched-script true buffer (chunk ∷ []) = rw (decodes chunk) refl
  batched-script false buffer (chunk ∷ []) = rw (decodes chunk, decodes []) refl
  batched-script marked buffer (chunk ∷ next ∷ chunks) =
      rw (decodes chunk) (batched-script marked (with_line_end buffer chunk) (next ∷ chunks))

  -- For a stream of non-empty chunks that ends without an error, with the read of its last chunk or
  -- with an empty read after it, and a bridge that takes every event, the batched answer is the
  -- buffer that the pump hands to the usage recorder, every chunk with a line feed after it.
  -- Decoding undoes base64.
  pub executor_stream_batched-pump :
      (accepts : List Text → Text → Bool)
      → ((before : List Text) (event : Text) → accepts before event ≡ true)
      → (marked : Bool) (chunks : List Text) → All (λ chunk. chunk ≢ []) chunks
      → (r : Bridge) × (pump accepts unb64 [] [] idle (script b64 marked chunks) ≡ some r)
        × (executor_stream_batched unb64 [] (script b64 marked chunks)
            ≡ some (ok_envelope (buffered [] chunks)))
        × (r.usage ≡ buffered [] chunks ∷ [])
  unfolding leave return_deferred close_bridge
  executor_stream_batched-pump accepts all_accepted marked chunks h = (
    _,
    pump-script accepts all_accepted b64 unb64 decodes marked chunks [] [] idle h,
    batched-script marked [] chunks,
    refl,
  )
