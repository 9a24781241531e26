-- ===== src/BinExport/Parse/Addresses.antt =====
-- The address that is computed for an instruction is that of `GetInstructionAddress`.
use vxsig.Prelude.{
  ℕ, zero, suc, ◌+◌, ◌-◌, ◌%◌, ◌^◌, ◌≡◌, refl, ap, ap₂, fun_ext, ◌∙◌, true, false, List, [], ◌∷◌,
  Option, none, some, ◌==◌, if◌then◌else◌, length, get_elem?, Bool-cases, Option-cases, inl, inr,
  arith,
}
use vxsig.Signature.{Bytes, Result, ok, failed, undefined, ◌>>=ᵣ◌, and_then}
use vxsig.BinExport.{Instruction, IndexRange, BinExport2, at, disassemble}
use vxsig.BinExport.Parse.{
  Receivers, Walk, start, has_address, AddressOf, cached_address, receive_instruction, parse_range,
  parse_ranges, parse_basic_block, parse_basic_blocks, parse_flow_graphs, receive_functions,
  parse_proto, end_of,
}

-- What `GetInstructionAddress` promises: an instruction without an address follows the one before it.
pub record InstructionAddresses (proto : BinExport2) (get_instruction_address : ℕ → ℕ)
    : Type 0 where
  pub following :
      (i : ℕ) (previous next : Instruction)
      → get_elem? proto.instruction i ≡ some previous
      → get_elem? proto.instruction (i + 1) ≡ some next
      → has_address next ≡ false
      → (get_instruction_address i + length previous.raw_bytes) % 2 ^ 64
        ≡ get_instruction_address (i + 1)

-- The reference: the address of every instruction is asked for.
abbrev pub direct_address : (ℕ → ℕ) → AddressOf
direct_address get_instruction_address computed_instruction_address last_instruction_index i
      instruction =
    get_instruction_address i

module _ {S : Type 0} (proto : BinExport2) (get : ℕ → ℕ) where
  -- The computed address is right for the next instruction, should it have none.
  IsCached : Walk S → Type 0
  IsCached walk =
      (next : Instruction)
      → get_elem? proto.instruction (walk.last_instruction_index + 1) ≡ some next
      → has_address next ≡ false
      → walk.computed_instruction_address ≡ get (walk.last_instruction_index + 1)

  Leaves : Result (Walk S) → Type 0
  Leaves (ok walk) = IsCached walk
  Leaves (failed s) = Unit
  Leaves undefined = Unit

  -- The same result, from which one can go on.
  Agree : Result (Walk S) → Result (Walk S) → Type 0
  Agree r r' = (r ≡ r') × Leaves r

  Agree-bind :
      (r r' : Result (Walk S)) (f f' : Walk S → Result (Walk S))
      → Agree r r'
      → ((walk : Walk S) → IsCached walk → Agree (f walk) (f' walk))
      → Agree (r >>=ᵣ f) (r' >>=ᵣ f')
  unfolding Agree Leaves
  Agree-bind (ok walk) r' f f' (e, c) h = rw (← e) (h walk c)
  Agree-bind (failed s) r' f f' (e, c) h = rw (← e) (refl, tt)
  Agree-bind undefined r' f f' (e, c) h = rw (← e) (refl, tt)

  cached_address-direct :
      (walk : Walk S) (i : ℕ) (instruction : Instruction)
      → IsCached walk
      → get_elem? proto.instruction i ≡ some instruction
      → cached_address get walk.computed_instruction_address walk.last_instruction_index i
          instruction
        ≡ get i
  unfolding cached_address IsCached
  cached_address-direct walk i instruction c e =
      elim (Bool-cases (walk.last_instruction_index + 1 == i)) [
        | inr far ↦ rw (cached_address, far) refl
        | inl next ↦ elim (Bool-cases (has_address instruction)) [
          | inl own ↦ rw (cached_address, next, own) refl
          | inr missing ↦
              let at_next : walk.last_instruction_index + 1 ≡ i = ground arith in
              let here : get_elem? proto.instruction (walk.last_instruction_index + 1)
                  ≡ some instruction =
                rw at_next e in
              rw (cached_address, next, missing) (c instruction here missing ∙ ap get at_next)
        ]
      ]

  module _ (hex : ℕ → Bytes) (receivers : Receivers S) (laws : InstructionAddresses proto get) where
    receive_instruction-Agree :
        (i : ℕ) (instruction : Instruction) (block_address : ℕ) (walk : Walk S)
        → get_elem? proto.instruction i ≡ some instruction
        → Leaves (receive_instruction hex receivers proto i instruction block_address (get i) walk)
    unfolding receive_instruction Leaves IsCached
    receive_instruction-Agree i instruction block_address walk e =
        elim (disassemble hex proto instruction)
          as (λ r. Leaves (
            r >>=ᵣ λ rendered. ok (record {
              computed_instruction_address = (get i + length instruction.raw_bytes) % 2 ^ 64;
              last_instruction_index = i;
              state =
                  receivers.instruction_receiver walk.state block_address (get i)
                    instruction.raw_bytes rendered.output rendered.immediates;
            }))) [
              | ok rendered ↦
                  λ next there missing. laws.following i instruction next e there missing
              | failed s ↦ tt
              | undefined ↦ tt
            ]

    parse_range-Agree :
        (rounds begin_index i block_address : ℕ) (walk : Walk S)
        → IsCached walk
        → Agree
            (parse_range hex receivers proto
              (cached_address get)
              rounds
              begin_index
              i
              block_address
              walk)
            (parse_range hex receivers proto
              (direct_address get)
              rounds
              begin_index
              i
              block_address
              walk)
    unfolding parse_range Agree Leaves
    parse_range-Agree zero begin_index i block_address walk c = (refl, c)
    parse_range-Agree (suc rounds) begin_index i block_address walk c =
        elim (Option-cases (get_elem? proto.instruction i)) [
          | inl none_ ↦ rw (none_, parse_range, at) (refl, tt)
          | inr (instruction, some_) ↦
              let block = if i == begin_index then get i else block_address in
              rw (some_, parse_range, at, cached_address-direct walk i instruction c some_)
                (Agree-bind
                  (receive_instruction hex receivers proto i instruction block (get i) walk)
                  (receive_instruction hex receivers proto i instruction block (get i) walk)
                  (parse_range hex receivers proto (cached_address get) rounds begin_index (i + 1)
                    block)
                  (parse_range hex receivers proto (direct_address get) rounds begin_index (i + 1)
                    block)
                  (refl, receive_instruction-Agree i instruction block walk some_)
                  (λ walk' c'. parse_range-Agree rounds begin_index (i + 1) block walk' c'))
        ]

    parse_ranges-Agree :
        (ranges : List IndexRange) (walk : Walk S)
        → IsCached walk
        → Agree
            (parse_ranges hex receivers proto (cached_address get) ranges walk)
            (parse_ranges hex receivers proto (direct_address get) ranges walk)
    unfolding parse_ranges Agree Leaves
    parse_ranges-Agree [] walk c = (refl, c)
    parse_ranges-Agree (range ∷ ranges) walk c =
        Agree-bind _ _ (parse_ranges hex receivers proto (cached_address get) ranges)
          (parse_ranges hex receivers proto (direct_address get) ranges)
          (parse_range-Agree (end_of range - range.begin_index) range.begin_index range.begin_index
            0 walk c)
          (parse_ranges-Agree ranges)

    -- The same, for what may stop the process.
    LeavesOption : Option (Result (Walk S)) → Type 0
    unfolding Leaves
    LeavesOption none = Unit
    LeavesOption (some r) = Leaves r

    AgreeOption : Option (Result (Walk S)) → Option (Result (Walk S)) → Type 0
    AgreeOption o o' = (o ≡ o') × LeavesOption o

    AgreeOption-and_then :
        (r r' : Result (Walk S)) (f f' : Walk S → Option (Result (Walk S)))
        → Agree r r'
        → ((walk : Walk S) → IsCached walk → AgreeOption (f walk) (f' walk))
        → AgreeOption (and_then (some r) f) (and_then (some r') f')
    unfolding AgreeOption LeavesOption Agree Leaves
    AgreeOption-and_then (ok walk) r' f f' (e, c) h = rw (← e) (h walk c)
    AgreeOption-and_then (failed s) r' f f' (e, c) h = rw (← e) (refl, tt)
    AgreeOption-and_then undefined r' f f' (e, c) h = rw (← e) (refl, tt)

    parse_basic_block-and_then :
        (block : List IndexRange) (walk : Walk S) (f f' : Walk S → Option (Result (Walk S)))
        → IsCached walk
        → ((walk : Walk S) → IsCached walk → AgreeOption (f walk) (f' walk))
        → AgreeOption
            (and_then (parse_basic_block hex receivers proto (cached_address get) block walk) f)
            (and_then (parse_basic_block hex receivers proto (direct_address get) block walk) f')
    unfolding parse_basic_block AgreeOption LeavesOption Leaves
    parse_basic_block-and_then [] walk f f' c h = (refl, tt)
    parse_basic_block-and_then (range ∷ ranges) walk f f' c h =
        AgreeOption-and_then _ _ f f' (parse_ranges-Agree (range ∷ ranges) walk c) h

    parse_basic_blocks-Agree :
        (indices : List ℕ) (walk : Walk S)
        → IsCached walk
        → AgreeOption
            (parse_basic_blocks hex receivers proto (cached_address get) indices walk)
            (parse_basic_blocks hex receivers proto (direct_address get) indices walk)
    unfolding parse_basic_blocks AgreeOption LeavesOption Leaves parse_basic_block
    parse_basic_blocks-Agree [] walk c = (refl, c)
    parse_basic_blocks-Agree (index ∷ indices) walk c =
        elim (Option-cases (get_elem? proto.basic_block index)) [
          | inl none_ ↦ rw (none_, parse_basic_blocks, at) (refl, tt)
          | inr (block, some_) ↦
              rw (some_, parse_basic_blocks, at)
                (parse_basic_block-and_then block walk
                  (parse_basic_blocks hex receivers proto (cached_address get) indices)
                  (parse_basic_blocks hex receivers proto (direct_address get) indices) c
                  (parse_basic_blocks-Agree indices))
        ]

    module _
        (first : (next : Instruction)
          → get_elem? proto.instruction 1 ≡ some next
          → has_address next ≡ true) where
      start-IsCached : (s : S) → IsCached (start s)
      unfolding IsCached
      start-IsCached s next there missing = ground (arith, first next there)

      parse_flow_graphs-direct :
          (flow_graphs : List (List ℕ)) (s : S)
          → parse_flow_graphs hex receivers proto (cached_address get) flow_graphs s
            ≡ parse_flow_graphs hex receivers proto (direct_address get) flow_graphs s
      unfolding parse_flow_graphs AgreeOption
      parse_flow_graphs-direct [] s = refl
      parse_flow_graphs-direct (graph ∷ flow_graphs) s =
          ap₂ and_then (parse_basic_blocks-Agree graph (start s) (start-IsCached s)).0
            (fun_ext λ walk. parse_flow_graphs-direct flow_graphs walk.state)

      -- Where `GetInstructionAddress` finds an instruction without an address behind the one before it,
      -- and the instruction with the index 1 has an address, the addresses that are computed are
      -- those of `GetInstructionAddress`: the callbacks are called with the same arguments as if it
      -- were asked for each instruction.
      pub parse_proto-direct :
          (s : S)
          → parse_proto hex receivers proto (cached_address get) s
            ≡ parse_proto hex receivers proto (direct_address get) s
      unfolding parse_proto
      parse_proto-direct s =
          elim (Option-cases (receive_functions hex receivers proto proto.vertex s)) [
            | inl none_ ↦ rw (none_, parse_proto) refl
            | inr (s', some_) ↦
                rw (some_, parse_proto) (parse_flow_graphs-direct proto.flow_graph s')
          ]
