-- ===== src/Standard/Within.antt =====
-- The gas and the DA footprint of a block that the standard builder builds.
use op_rbuilder.Base.{
  ℕ, ◌*◌, ◌≤◌, ◌≡◌, ◌∙◌, Bool, true, Option, none, some, arith, ok, Result-cases, Option-cases, inl,
  inr, u64_mod, ◌%◌, mul_u64, bind-ok,
}
use op_rbuilder.BestTxs.{PayloadTransactions}
use op_rbuilder.Evm.{MeteredEvm}
use op_rbuilder.Context.{Info}
use op_rbuilder.Context.Sequencer.Laws.{execute_sequencer_transactions-no_blob_fields}
use op_rbuilder.Standard.Contents.{Steps-Grows}
use op_rbuilder.Flashblocks.Headers.{Header, blob_fields}
use op_rbuilder.Flashblocks.Outputs.{BuiltPayload}
use op_rbuilder.Standard.{Node, BuildOutcomeKind, Job, Site, ctx}
use op_rbuilder.Standard.Sealing.{Parts, seal, parts, payload_of, header_of}
use op_rbuilder.Standard.Payload.{into_payload, build_payload}
use op_rbuilder.Standard.Built.{build_payload-Built}
use op_rbuilder.Standard.Reserved.{Starts, Fits, Sound, Steps-Sound}

module _ (node : Node) where
  open node use {evm, sealer, seal_ctx}

  -- The header's gas is within its limit, and after Jovian the footprint, its blob gas, too.
  pub record KeepsLimits (header : Header) : Type 0 where
    pub gas : header.gas_used ≤ header.gas_limit
    pub footprint :
        seal_ctx.builder.is_jovian_active ≡ true
        → (n : ℕ) × (header.blob_gas_used ≡ some n) × (n ≤ header.gas_limit)

  parts-blob_fields :
      (bundle : sealer.Bundle) (info : Info evm (ctx node)) (p : Parts node)
      → parts node bundle info ≡ ok p
      → blob_fields seal_ctx info ≡ ok (p.excess_blob_gas, p.blob_gas_used)
  unfolding parts
  parts-blob_fields bundle info p e = elim (Result-cases (blob_fields seal_ctx info)) [
    | inl (fields, ran) ↦ ground arith
    | inr (x, bad) ↦ absurd (ground arith)
  ]

  blob_fields-jovian :
      (info : Info evm (ctx node)) {excess used : Option ℕ}
      → info.optional_blob_fields ≡ none
      → seal_ctx.builder.is_jovian_active ≡ true
      → blob_fields seal_ctx info ≡ ok (excess, used)
      → (k : ℕ) × (info.da_footprint_scalar ≡ some k)
        × (used ≡ some (mul_u64 info.cumulative_da_bytes_used k))
  unfolding blob_fields
  blob_fields-jovian info none_set jovian e = elim (Option-cases info.da_footprint_scalar) [
    | inl missing ↦ absurd (ground arith)
    | inr (k, scaled) ↦ (k, scaled, ground arith)
  ]

  mod-le : (a limit : ℕ) → a ≤ limit → a % u64_mod ≤ limit
  mod-le a limit h = omega arith

  module _ {cap : ℕ} (meter : MeteredEvm evm cap) (txs : PayloadTransactions) (pool : txs.Txs)
      (cancel : ℕ → Bool) where
    seal-Sound :
        (s : Site node) (payload : BuiltPayload evm sealer)
        → Sound node meter txs pool cancel s.info
        → s.info.optional_blob_fields ≡ none
        → seal node s ≡ ok payload
        → KeepsLimits payload.block.header
    unfolding seal payload_of header_of
    seal-Sound s payload sound no_blobs e =
        let (p, ran, same) =
          bind-ok (parts node (sealer.bundle_of s.db) s.info)
            (payload_of node (sealer.bundle_of s.db) s.info) payload e in
        rw same (record {
          gas = sound.gas;
          footprint = λ jovian.
              let (k, scaled, used) =
                blob_fields-jovian s.info no_blobs jovian
                  (parts-blob_fields (sealer.bundle_of s.db) s.info p ran) in
              (
                mul_u64 s.info.cumulative_da_bytes_used k,
                used,
                mod-le (s.info.cumulative_da_bytes_used * k) _ (rw scaled at sound.footprint),
              );
        })

    -- If, for the block of the attributes, the builder's own transactions at the end are within
    -- the room that was kept for them at the top and this within the limit, the attributes'
    -- transactions and those at the top are within what this leaves, the EVM meters gas and the
    -- limits are small enough for words, then the block of a payload of build_payload of the
    -- standard builder uses no more gas than the gas limit in its header, and after Jovian its DA
    -- footprint, which is its blob gas, is no more than that either.
    pub build_payload-Within :
        (j : Job node) (kind : BuildOutcomeKind (BuiltPayload evm sealer))
        (payload : BuiltPayload evm sealer)
        → ((s : Site node) → Starts node j s → Fits node cap txs pool cancel j s)
        → (build_payload node txs pool cancel j).0 ≡ ok kind
        → into_payload node kind ≡ some payload
        → KeepsLimits payload.block.header
    build_payload-Within j kind payload fits h q =
        let b = build_payload-Built node txs pool cancel j kind payload h q in
        let grows = Steps-Grows node txs pool cancel b.steps in
        seal-Sound b.final payload
          (Steps-Sound node meter txs pool cancel
            (fits b.site (b.db, b.db0, b.found, b.started, b.sequenced)) b.steps)
          (grows.same_blob_fields
            ∙ execute_sequencer_transactions-no_blob_fields evm (ctx node) b.db0 j.transactions _
                b.sequenced)
          b.sealed
