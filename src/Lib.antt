-- ===== src/Lib.antt =====
-- pigen is a compiler from a language of elastic hardware blocks to SystemVerilog. This library
-- models the parts of its C core that decide: the exact integers of constants and widths, the
-- catalogue of transfer types, the predicates of guards, and the route, which checks a module's
-- transfers and their ready graph before they are lowered; of its text side, the source files and
-- the lexer; and of its output, the names of an RTL model.
--
-- How the parts interact: the semantic model holds all arenas. Routing (src/route.c) reads the
-- arenas through their accessors, takes a signal's behaviour from the catalogue
-- (src/transfer_type.c), and the width of an exact integer's type from the integers
-- (src/integer.c). The predicates (src/predicate.c) are interned beside them. Tokens, names of
-- symbols and names of the RTL model are spans of the source files (src/source.c): the lexer
-- (src/lexer.c) counts their places, declarations (src/semantic.c) compare their texts, and
-- src/rtl_name.c copies them.
--
-- Files, and what each models:
--   Common, Common/*          lists by index, the integers ℤ, powers of 2, bits, Boolean tests
--   Magnitude, Magnitude/*    src/integer.c: `magnitude_*`, over lists of 32-bit limbs; the children
--                             relate each to the number that the limbs write
--   Integer                   src/integer.c: the table of integers, `integer_intern`, and its input
--                             from decimal text and from 64 bits
--   Integer/Table, Intern/*   when a table is canonical; that interning keeps it so
--   Integer/Decimal           `pigen_integer_intern_decimal`, `pigen_integer_intern_u64`
--   Integer/Arith, Arith/*    negate, compare, add, subtract, `integer_multiply_bounded`, shift
--   Integer/Read, Read/*      the tests, the conversions to a word, and the widths
--   Integer/Power, its Cases  `pigen_integer_power`; its loop is in Integer/Arith/Power
--   TransferType, its Laws    src/transfer_type.c, include/pigen/transfer_type.h
--   Source, its Locate, Add   src/source.c, include/pigen/source.h, and the loop of `pigen_fail` in
--                             src/util.c
--   Lexer, Lexer/*            src/lexer.c, include/pigen/lexer.h, `pigen_is_identifier_char`: Places
--                             and Tokens for `pigen_lex_source`, Munch for `symbol_length`
--   RtlName, RtlName/*        src/rtl_name.c, include/pigen/rtl_name.h: Pigeonhole and Suffix
--                             for `unique_name`, Publish, Resolve, Phases and Assign for
--                             `pigen_rtl_assign_names`
--   Predicate                 src/predicate.c; Predicate/Table, Insert, Conjunction for
--                             `pigen_predicate_and_condition`, Merge and Exclusion for
--                             `pigen_predicates_mutually_exclusive`
--   Semantic                  include/pigen/semantic.h and the accessors of src/semantic.c
--   Scope, Scope/*            src/semantic.c: scopes, symbols, `pigen_symbol_declare` (Declare, Build),
--                             `pigen_symbol_lookup` (Chain, Lookup), `pigen_scope_add` (Extend)
--   Route, Route/*            src/route.c, include/pigen/route.h: the record; Width for
--                             `route_*_width`, Laws for the laws of a transfer, Domain for
--                             `route_domain_multi_edge`, Ready for `route_graph_acyclic` with
--                             `pigen_route_check`, and Build for `pigen_route_build`, with Owned,
--                             Graph and Lawful for what a built route promises
--   */Tests                   runs of the code, and the theorems at concrete inputs
--
-- How the code is read: an array with its count is a list, and a null pointer `none`; a null model
-- or route is left out, and so are the growth of arrays and failures of allocation. An id is its
-- 32-bit number, with `PIGEN_INVALID_ID` as `invalid_id`; a wrap to 32 or 64 bits is written out
-- (`u32`, `u64`). Limbs are numbers below 2 ^ 32 where a theorem says so. An operation on a table
-- returns the new table with its result. A route's `node_count` is the length of its nodes.
--
-- Bounds and fuel: a table of fewer than `limb_max` limbs has no more bits than a 64-bit size
-- counts. The loop of `pigen_predicates_mutually_exclusive` has as many steps as both
-- predicates have atoms, and takes one with each. `route_value_width` has one step for each
-- expression of the model and one more, which is enough where a child has a lower id than its
-- expression; it reports a lack of fuel, and the read of a missing child, as outcomes of their own, and
-- then the build's status is `unreturned`. The bisection of
-- `pigen_source_locate` has as many rounds as the file has lines, and the lexer one round for each
-- byte and one more. The search of `unique_name` tries one suffix more than there are names. A chain of symbols has a round for each symbol, one of scopes a round for each scope,
-- and one more. The loop of `pigen_integer_power` has a round for each bit of a 64-bit exponent.
--
-- Not modelled: `pigen_integer_power_width_u64` of src/integer.c, data types and
-- constant evaluation, which routing takes as the interface `DataTypes`, the builders of the
-- semantic arenas but scopes and symbols, and most of the text side of the compiler: preprocessing,
-- parsing, resolution, lowering and emission.
pub mod Common
pub mod Magnitude
pub mod Integer
pub mod TransferType
pub mod Source
pub mod Lexer
pub mod Predicate
pub mod Semantic
pub mod Scope
pub mod Route
pub mod RtlName
