-- ===== src/Check/Bespoke.antt =====
-- The table of the bespoke bench kernels of src/nvidia/check.rs.
use calx_mill.Base.{Option, none, List, [], ◌∷◌}
use calx_mill.Base.Text.{Text, codes}
use calx_mill.Check.Tables.{Expect, exp, exp_c, exp_m}

-- By a part of the function's name, of which the first entry is taken.
abbrev pub expect_fn : List (Text × Option Expect)
expect_fn =
    (codes "smem_chase_kernel", exp (codes "LDS" ∷ []))
    ∷ (codes "smem_conflict_kernel", exp (codes "LDS" ∷ []))
    ∷ (
      codes "smem_bw_kernel",
      exp_c (codes "LDS" ∷ []) (
          codes "FADD"
          ∷ codes "FFMA"
          ∷ codes "IMAD"
          ∷ codes "LOP3"
          ∷ codes "LEA"
          ∷ codes "SHF"
          ∷ codes "MOV"
          ∷ []),
    )
    ∷ (codes "l1_chase_kernel", exp (codes "LDG" ∷ []))
    ∷ (codes "pchase_kernel", exp (codes "LDG" ∷ []))
    ∷ (codes "peer_chase_kernel", exp (codes "LDG" ∷ []))
    ∷ (codes "rt_initiator", none)
    ∷ (codes "rt_responder", none)
    ∷ (codes "vis_initiator", none)
    ∷ (codes "vis_responder", none)
    ∷ (codes "peer_atom_chase", exp_m (codes "ATOMG" ∷ []) [] 8)
    ∷ (codes "stream_writer", none)
    ∷ (
      codes "local_read_bw",
      exp_m (codes "LDG" ∷ [])
          (codes "FADD"
            ∷ codes "IMAD"
            ∷ codes "LEA"
            ∷ codes "SHF"
            ∷ codes "MOV"
            ∷ codes "LOP3"
            ∷ codes "SEL"
            ∷ [])
          4,
    )
    ∷ (codes "peer_ring_init", none)
    ∷ (
      codes "peer_read_bw_kernel",
      exp_m (codes "LDG" ∷ [])
          (codes "FADD"
            ∷ codes "IMAD"
            ∷ codes "LEA"
            ∷ codes "SHF"
            ∷ codes "MOV"
            ∷ codes "LOP3"
            ∷ [])
          4,
    )
    ∷ (
      codes "peer_write_bw_kernel",
      exp_m (codes "STG" ∷ [])
          (codes "IMAD" ∷ codes "LEA" ∷ codes "SHF" ∷ codes "MOV" ∷ codes "LOP3" ∷ []) 1,
    )
    ∷ (
      codes "peer_burst_kernel",
      exp_m (codes "STG" ∷ [])
          (codes "MEMBAR"
            ∷ codes "CCTL"
            ∷ codes "ERRBAR"
            ∷ codes "IMAD"
            ∷ codes "LEA"
            ∷ codes "SHF"
            ∷ codes "MOV"
            ∷ codes "LOP3"
            ∷ codes "SEL"
            ∷ [])
          0,
    )
    ∷ (codes "policy_chase_kernel", exp (codes "LDG" ∷ []))
    ∷ (codes "policy_ring_init", none)
    ∷ (codes "carveout_chase_kernel", exp (codes "LDG" ∷ []))
    ∷ (codes "carveout_ring_init", none)
    ∷ (codes "pchase_ring_init", none)
    ∷ (codes "tlb_chase_kernel", exp (codes "LDG" ∷ []))
    ∷ (codes "tlb_ring_init", none)
    ∷ (codes "tex_chase_kernel", exp (codes "LDG" ∷ []))
    ∷ (codes "tex_ring_init", none)
    ∷ (codes "icache_kernel", exp (codes "FFMA" ∷ []))
    ∷ (codes "hmma_f16_tput_kernel", exp (codes "HMMA" ∷ []))
    ∷ (codes "hmma_f32_tput_kernel", exp (codes "HMMA" ∷ []))
    ∷ (codes "hmma_f16_lat_kernel", exp (codes "HMMA" ∷ []))
    ∷ (codes "imma_s8_tput_kernel", exp (codes "IMMA" ∷ []))
    ∷ (codes "atom_shared_lat_kernel", exp_m (codes "ATOMS" ∷ []) [] 16)
    ∷ (codes "atom_global_lat_kernel", exp_m (codes "ATOMG" ∷ []) [] 16)
    ∷ (codes "atom_cas_lat_kernel", exp_m (codes "ATOMG" ∷ []) [] 16)
    ∷ (codes "const_chase_div_kernel", exp (codes "LDC" ∷ []))
    ∷ (codes "const_chase_kernel", exp (codes "ULDC" ∷ []))
    ∷ (
      codes "dram_read_kernel",
      exp_m (codes "LDG" ∷ [])
          (codes "FADD"
            ∷ codes "IMAD"
            ∷ codes "LEA"
            ∷ codes "SHF"
            ∷ codes "MOV"
            ∷ codes "LOP3"
            ∷ [])
          4,
    )
    ∷ (
      codes "dram_write_kernel",
      exp_m (codes "STG" ∷ [])
          (codes "IMAD" ∷ codes "LEA" ∷ codes "SHF" ∷ codes "MOV" ∷ codes "LOP3" ∷ []) 1,
    )
    ∷ (
      codes "dram_copy_kernel",
      exp_m (codes "LDG" ∷ codes "STG" ∷ [])
          (codes "IMAD" ∷ codes "LEA" ∷ codes "SHF" ∷ codes "MOV" ∷ codes "LOP3" ∷ []) 2,
    )
    ∷ (codes "l2bw_kernel", none)
    ∷ (
      codes "l1bw_kernel",
      exp_c (codes "LDG" ∷ []) (
          codes "FADD"
          ∷ codes "FFMA"
          ∷ codes "IMAD"
          ∷ codes "LOP3"
          ∷ codes "LEA"
          ∷ codes "SHF"
          ∷ codes "MOV"
          ∷ []),
    )
    ∷ (
      codes "stride_kernel",
      exp_m (codes "LDG" ∷ [])
          (codes "IMAD"
            ∷ codes "LEA"
            ∷ codes "SHF"
            ∷ codes "LOP3"
            ∷ codes "MOV"
            ∷ codes "IADD3"
            ∷ [])
          12,
    )
    ∷ (codes "cvt_f2f", exp (codes "F2F" ∷ codes "HADD2" ∷ []))
    ∷ (codes "cvt_i2f", exp (codes "F2I" ∷ codes "I2F" ∷ []))
    ∷ (
      codes "cvt_derived_lat_kernel",
      exp_m (codes "F2F" ∷ codes "HADD2" ∷ codes "F2I" ∷ codes "I2F" ∷ []) (codes "FADD" ∷ []) 32,
    )
    ∷ (codes "f2f_pair", exp (codes "F2F" ∷ codes "HADD2" ∷ []))
    ∷ (codes "i2f_pair", exp (codes "F2I" ∷ codes "I2F" ∷ []))
    ∷ (codes "mufu_ex2", exp (codes "MUFU" ∷ []))
    ∷ (codes "MufuSinE", exp (codes "MUFU" ∷ codes "FMUL" ∷ []))
    ∷ (codes "MufuRcpE", exp (codes "MUFU" ∷ codes "FFMA" ∷ codes "FADD" ∷ []))
    ∷ (codes "MufuCosE", exp (codes "MUFU" ∷ codes "FMUL" ∷ []))
    ∷ (codes "mufu_lat_kernel", exp (codes "MUFU" ∷ []))
    ∷ (codes "mufu_tput_kernel", exp (codes "MUFU" ∷ []))
    ∷ (codes "bar_kernel", exp_m (codes "BAR" ∷ []) [] 8)
    ∷ (
      codes "bar_direct_kernel",
      exp_m (codes "BAR" ∷ [])
          (codes "CS2R" ∷ codes "S2R" ∷ codes "MOV" ∷ codes "SHF" ∷ codes "LEA" ∷ codes "IMAD" ∷ [])
          1,
    )
    ∷ (codes "bar_tput_kernel", exp_m (codes "BAR" ∷ []) [] 8)
    ∷ (
      codes "vote_lat_kernel",
      exp_m (codes "VOTE" ∷ codes "VOTEU" ∷ [])
          (codes "SHF"
            ∷ codes "LOP3"
            ∷ codes "ISETP"
            ∷ codes "MOV"
            ∷ codes "PLOP3"
            ∷ codes "P2R"
            ∷ codes "R2P"
            ∷ codes "SEL"
            ∷ [])
          16,
    )
    ∷ (
      codes "vote_tput_kernel",
      exp_m (codes "VOTE" ∷ codes "VOTEU" ∷ [])
          (codes "SHF"
            ∷ codes "LOP3"
            ∷ codes "ISETP"
            ∷ codes "MOV"
            ∷ codes "PLOP3"
            ∷ codes "P2R"
            ∷ codes "R2P"
            ∷ codes "SEL"
            ∷ [])
          16,
    )
    ∷ (
      codes "ldsm_lat_kernel",
      exp_m (codes "LDSM" ∷ [])
          (codes "LOP3" ∷ codes "MOV" ∷ codes "SHF" ∷ codes "LEA" ∷ codes "IMAD" ∷ []) 16,
    )
    ∷ (
      codes "ldsm_tput_kernel",
      exp_m (codes "LDSM" ∷ [])
          (codes "LOP3" ∷ codes "MOV" ∷ codes "SHF" ∷ codes "LEA" ∷ codes "IMAD" ∷ []) 16,
    )
    ∷ (codes "line_chase_kernel", exp (codes "LDG" ∷ []))
    ∷ (codes "line_ring_init", none)
    ∷ (codes "atom_shared_cas_lat_kernel", exp_m (codes "ATOMS" ∷ []) [] 16)
    ∷ (codes "atom_shared_tput_kernel", exp_m (codes "ATOMS" ∷ codes "REDS" ∷ []) [] 16)
    ∷ (codes "atom_global_tput_kernel", exp_m (codes "RED" ∷ codes "ATOMG" ∷ []) [] 16)
    ∷ (codes "peer_cas_chase", exp_m (codes "ATOMG" ∷ []) [] 8)
    ∷ (codes "peer_atom_tput", exp_m (codes "RED" ∷ codes "ATOMG" ∷ []) [] 8)
    ∷ (codes "empty_kernel", none)
    ∷ (codes "k_noargs", none)
    ∷ (codes "k_args", none)
    ∷ (codes "shfl_lat_kernel", exp (codes "SHFL" ∷ []))
    ∷ (
      codes "branch_div_kernel",
      exp_m (codes "FFMA" ∷ [])
          (codes "BSSY"
            ∷ codes "BSYNC"
            ∷ codes "SEL"
            ∷ codes "MOV"
            ∷ codes "IMAD"
            ∷ codes "PLOP3"
            ∷ codes "SHF"
            ∷ codes "LOP3"
            ∷ [])
          4,
    )
    ∷ (
      codes "branch_pred_kernel",
      exp_m (codes "FFMA" ∷ [])
          (codes "SEL"
            ∷ codes "MOV"
            ∷ codes "IMAD"
            ∷ codes "PLOP3"
            ∷ codes "SHF"
            ∷ codes "LOP3"
            ∷ [])
          4,
    )
    ∷ (codes "shfl_tput_kernel", exp (codes "SHFL" ∷ []))
    ∷ (codes "fa_mini_kernel", none)
    ∷ (codes "ffma_anchor", exp (codes "FFMA" ∷ []))
    ∷ (
      codes "stream_anchor",
      exp_m (codes "LDG" ∷ [])
          (codes "FADD"
            ∷ codes "IMAD"
            ∷ codes "LEA"
            ∷ codes "SHF"
            ∷ codes "LOP3"
            ∷ codes "MOV"
            ∷ [])
          12,
    )
    ∷ (
      codes "smemtile_anchor",
      exp_m (codes "LDS" ∷ codes "FFMA" ∷ [])
          (codes "IMAD" ∷ codes "LEA" ∷ codes "SHF" ∷ codes "LOP3" ∷ codes "MOV" ∷ []) 48,
    )
    ∷ (codes "capmix_anchor", exp (codes "FFMA" ∷ codes "LOP3" ∷ []))
    ∷ (codes "latbound_demo", exp (codes "FFMA" ∷ []))
    ∷ (
      codes "mixp_popc_ldg",
      exp_m (codes "POPC" ∷ codes "LDG" ∷ [])
          (codes "FADD"
            ∷ codes "IMAD"
            ∷ codes "LEA"
            ∷ codes "SHF"
            ∷ codes "MOV"
            ∷ codes "LOP3"
            ∷ [])
          64,
    )
    ∷ (codes "mixp_hmma_hfma2", exp_m (codes "HMMA" ∷ codes "HFMA2" ∷ []) [] 32)
    ∷ (
      codes "inject_kernel",
      exp_m (codes "FFMA" ∷ codes "LOP3" ∷ codes "LDG" ∷ [])
          (codes "IDP"
            ∷ codes "POPC"
            ∷ codes "SEL"
            ∷ codes "ISETP"
            ∷ codes "IMAD"
            ∷ codes "LEA"
            ∷ codes "MOV"
            ∷ codes "SHF"
            ∷ codes "FADD"
            ∷ [])
          40,
    )
    ∷ []
