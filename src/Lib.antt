-- ===== src/Lib.antt =====
-- A model of wah, a WebAssembly runtime in one header (wah.h), and the theorems that its parts are right.
--
-- A module is read by one parser function for each section (Types/Section, Sections), which use the
-- decoders of Leb128, Types/Decode and Names and stop at the first error (Status). Types are compared by
-- Types/Subtype and Types/Equal; struct types get a layout from Layout. Code is validated on an operand
-- stack (Validation). At run time, memory is accessed through the checks and bulk operations of Bulk,
-- small integers are kept in references (References), and a running context polls for interrupts
-- (Polling). The host starts, resumes, finishes and cancels what runs in a context (Lifecycle), and keeps
-- references in a table (Pins). Objects that no context can reach are freed by the collector (Gc), and
-- freeing a context poisons those that may refer to it (Dependents).
--
-- - Base: numbers, lists, bits and Boolean tests that the other modules share.
-- - Status: wah_error_t, WAH_CHECK and WAH_ENSURE.
-- - Arrays: wah_grow_array and wah_grow_array_pow2 (wah.h). The loop has 32 rounds, since a capacity
--   doubled 32 times passes UINT32_MAX.
-- - Bytes: wah_read_u16_le to wah_write_u64_le.
-- - Leb128: wah_decode_uleb128, wah_decode_uleb128_64, wah_decode_sleb128_32, wah_decode_sleb128_64,
--   on lists of bytes. Leb128/Groups says what groups of seven bits stand for.
-- - Types: wah_type_t, wah_type_def_t; Types/Parse: the parser's state, wah_require_feature;
--   Types/Decode: wah_decode_heap_type to wah_decode_opcode; Types/Section: wah_parse_type_section and
--   wah_parse_function_section; Types/Subtype: wah_type_is_subtype, whose walk has one round for each
--   type of the module, which is enough where supertypes come before their subtypes;
--   Types/Equal: wah_types_structurally_equal.
-- - Layout: wah_build_struct_repr_info, on a target whose pointers have 8 bytes. Its inner loops have 4
--   rounds, since slots have at most 8 bytes and sizes are halved or doubled.
-- - Validation: wah_validation_push_type and the other helpers on wah_validation_context_t.
--   Validation/Control: blocks, else and end in wah_validate_opcode; Validation/Control/Branches:
--   wah_validation_resolve_br_target, br, br_if and return. A block type, a label and its instruction
--   are decoded, and the instruction that is emitted is left out but for its keep and drop.
--   Validation/Tables: br_table with wah_br_table_labels_t; the packing of its targets is left out.
--   Validation/RefMap: WAH_CAPTURE_REF_MAP of wah_analyze_stream, whose maps Gc/Roots reads.
-- - Bulk: wah_check_effective_addr, the memory budget, and wah_memory_fill_internal,
--   wah_memory_init_internal and wah_memory_copy_internal. The loop has two rounds more than the size:
--   a round that moves nothing is out of fuel and ends it.
-- - Sections: wah_parse_memory_section, wah_parse_tag_section, wah_parse_local_decls.
-- - Names: wah_is_valid_utf8, wah_parse_name and wah_export_lower_bound.
-- - References: wah_ref_make_i31 and its inverses.
-- - Polling: wah_request_interrupt, wah_recompute_poll_flag and wah_poll_handler by their accesses of
--   the flags.
-- - Gc: wah_gc_mark_object, wah_gc_scan_object and the loops of wah_gc_step_mark. The worklist is drained
--   with fuel for its items and all objects, each of which is pushed once, and the outer loop has two
--   rounds more than there are objects, since each round but the first and the last marks one.
--   Gc/Heap: wah_gc_alloc, wah_gc_step_sweep, wah_gc_verify_heap; Gc/Heap/Ends: wah_gc_end;
--   Gc/Domain: wah_gc_collect_domain and wah_gc_step, whose loop has one round more than there are contexts, which are listed once.
--   Gc/Roots: wah_gc_enumerate_roots; a ref map has fuel for all nodes, since parents come first.
-- - Dependents: wah_gc_register_dependent, wah_register_dependent and their inverses;
--   Dependents/Poison: wah_poison_link_domain, whose recursion is at most as deep as there are contexts.
-- - Pins: wah_pin, wah_unpin, wah_pinned_slot and wah_load_host_params, on a 64-bit target.
-- - Lifecycle: wah_start, wah_resume, wah_finish, wah_finish_pin, wah_cancel and wah_call_module_multi.
--   What runs (wah_run_interpreter, host functions), wah_bind_frame_module and
--   wah_cross_module_subtype are parameters. Lifecycle/State has the state of an activation.
--
-- All compiled features are on, and allocations succeed except where a parameter says whether they do.
-- Not modelled: the validator's other instructions and the lowering, the interpreter's instructions,
-- linking and instantiation, the other sections, the just-in-time compiler and the vector kernels.
pub mod Base
pub mod Status
pub mod Leb128
pub mod Bytes
pub mod Arrays
pub mod Types
pub mod Layout
pub mod Validation
pub mod Bulk
pub mod Sections
pub mod Names
pub mod References
pub mod Polling
pub mod Gc
pub mod Pins
pub mod Lifecycle
pub mod Dependents
