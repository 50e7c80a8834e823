-- ===== src/Flashblocks/Ending.antt =====
-- The errors that `build_payload` ends with.
use op_rbuilder.Base.{
  ◌+◌, ◌<◌, ◌≡◌, ◌≢◌, List, arith, inl, inr, Result, ok, err, Bool-cases, bind-ok, Option-cases,
}
use op_rbuilder.Context.{PayloadBuilderError, Info}
use op_rbuilder.SidecarClient.{u32_mod}
use op_rbuilder.Flashblocks.Batches.{first_ctx}
use op_rbuilder.Flashblocks.Headers.{block_gas_limit}
use op_rbuilder.Flashblocks.Outputs.{BuiltPayload, FlashblockPayload}
use op_rbuilder.Flashblocks.Building.{Chain, FlashblockError, stuck, ctx, Trigger, Site}
use op_rbuilder.Flashblocks.Blocks.{
  Job, flashblock_count, prepare, add_first_builder_txs, send_fallback, on_fallback, build_fallback,
  on_first, build_rest, build_payload,
}
use op_rbuilder.Flashblocks.Fueled.{build_flashblocks-fueled}

module _ (chain : Chain) where
  open chain use {evm, sealer, seal_ctx, sidecar}

  send_fallback-fueled :
      (j : Job chain) (payload : BuiltPayload evm sealer) (message : FlashblockPayload evm sealer)
      (s : Site chain)
      → (send_fallback chain j payload message s).0 ≢ err stuck
  unfolding send_fallback
  send_fallback-fueled j payload message s = elim (Bool-cases j.sends) [
    | inr lost ↦ rw lost (λ q. absurd (ground arith))
    | inl sends ↦ elim (Bool-cases seal_ctx.no_tx_pool) [
      | inl syncing ↦ rw (sends, syncing) (λ q. absurd (ground arith))
      | inr building ↦ elim (Bool-cases j.publishes) [
        | inr off ↦ rw (sends, building, off) (λ q. absurd (ground arith))
        | inl heard ↦ rw (sends, building, heard) (λ q. absurd (ground arith))
      ]
    ]
  ]

  on_fallback-fueled :
      (j : Job chain) (s : Site chain)
      (r : Result PayloadBuilderError
        (BuiltPayload evm sealer × (FlashblockPayload evm sealer × Info evm (ctx chain))))
      → (on_fallback chain j s r).0 ≢ err stuck
  unfolding on_fallback
  on_fallback-fueled j s (err e) = λ q. absurd (ground arith)
  on_fallback-fueled j s (ok (payload, (message, info))) = send_fallback-fueled j payload message _

  build_rest-fueled :
      sidecar.max_retries + 1 < u32_mod
      → (j : Job chain) (ts : List (Trigger chain)) (s : Site chain)
      → (build_rest chain j ts s).0 ≢ err stuck
  unfolding build_rest
  build_rest-fueled small j ts s = elim (Option-cases (flashblock_count chain j)) [
    | inl panic ↦ rw (panic, build_rest) (λ q. absurd (ground arith))
    | inr (n, counted) ↦
        elim (Option-cases (
          first_ctx (block_gas_limit seal_ctx) j.max_da_block_size s.info.da_footprint_scalar
            j.disable_state_root n)) [
              | inl panic ↦ rw (counted, panic, build_rest) (λ q. absurd (ground arith))
              | inr (extra, begun) ↦
                  rw (counted, begun, build_rest) (build_flashblocks-fueled chain small extra ts s)
            ]
  ]

  on_first-fueled :
      sidecar.max_retries + 1 < u32_mod
      → (j : Job chain) (ts : List (Trigger chain))
        (r : Result FlashblockError (Unit {0}) × Site chain)
      → r.0 ≢ err stuck
      → (on_first chain j ts r).0 ≢ err stuck
  unfolding on_first
  on_first-fueled small j ts (err e, s) h = h
  on_first-fueled small j ts (ok u, s) h = elim (Bool-cases seal_ctx.no_tx_pool) [
    | inl syncing ↦ rw syncing (λ q. absurd (ground arith))
    | inr building ↦ rw building (build_rest-fueled small j ts s)
  ]

  -- With fewer than 2^32 - 1 retries of the sidecar allowed, build_payload never runs out of the
  -- fuel of a loop over the pool or of a poll of the sidecar, in any flashblock.
  pub build_payload-fueled :
      sidecar.max_retries + 1 < u32_mod
      → (j : Job chain) (ts : List (Trigger chain))
        (end : Result FlashblockError (Unit {0}) × Site chain)
      → build_payload chain j ts ≡ ok end
      → end.0 ≢ err stuck
  unfolding build_payload build_fallback
  build_payload-fueled small j ts end e =
      let run = λ (s : Site chain).
        on_first chain j ts (build_fallback chain j (add_first_builder_txs chain j s)) in
      let (s, ran, same) = bind-ok (prepare chain j) run end e in
      rw same (on_first-fueled small j ts _ (on_fallback-fueled j _ _))
