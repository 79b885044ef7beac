-- ===== src/Lib.antt =====
-- A verification library for calx-mill, the throughput modeler.
--
-- The program has a substrate-generic core, src/lib.rs: how many work units or blocks a substrate
-- holds at once, how many cycles an op takes on its pipes, how a chain of dependent ops hides its
-- latency, and what phases and lanes cost together. Around it stand the calibration of
-- src/validity.rs, which decides when a projection may gate a decision, the telemetry of
-- src/telemetry.rs, whose measured columns gate a projected op by the same verdicts, and the
-- adapters of src/nvidia/: the CSV reader and writer of csvio.rs, the matcher of kernel names of
-- pattern.rs, the reader of the compiler's resource reports of ptxas.rs, the reader of
-- disassemblies and their hot loops of sass.rs, the rates of table.rs, the projection of a census
-- of operations of projection.rs, the purity check of timed loops of check.rs, the reader of
-- measured metrics of ncu.rs, the generator of the op table of mktable.rs with the number
-- formatting of pyfmt.rs, and the gate on projections of verify.rs, which stands on most of these.
-- src/main.rs calls them: each of its commands reads arguments and files and turns what a part
-- gives into an exit code, and `gate` adjudicates a claim against the registry of anchors.
--
-- The files and the code that they model:
--   Base            the shared names: Boolean tests, lists over native numbers, u32 and u64
--                   arithmetic, text, its words and lines, integers as text, results (Result),
--                   lists without repeats (Distinct), scans, sorting (Sort), groups by a key
--                   (Groups), f64 (Float) and its printing (Decimal)
--   Core/Rounding   round_up, ceil_div
--   Core/Occupancy  Substrate, WorkUnit, concurrency, occupancy_pct
--   Core/Block      Block, blocks_per_instance, cooperative_fits
--   Core/Precision  Precision, stream_bytes, acc_registers
--   Core/Throughput Bottleneck, Projection, project
--   Core/Latency    DepChain, project_latency, chain_cycles, chain_utilization_pct
--   Core/Template   unrolled_registers, achievable_chains, OpTemplate and its methods
--   Core/Composition Lane, Phase, the methods of OpComposition
--   Core/Mix        ResourceKind, SteadyState, mix_demands, select_bound, project_mix
--   Core/Contention merge_demands, overlapped_contended
--   Csv             Table, parse_records, write_record of src/nvidia/csvio.rs
--   Pattern         Pattern, its matcher and its reader, of src/nvidia/pattern.rs
--   Ptxas           src/nvidia/ptxas.rs: Usage has KernelUsage, tu102_sm, work_unit and block,
--                   Report has parse_ptxas_v
--   Validity        src/validity.rs: Authority has the tiers, compose, verdict and exit_code; Fit
--                   has the anchors and computed_fit; Registry has parse_kv and parse_registry;
--                   Command has parse_fit and parse_query of src/main.rs; OwnPoint, Covered,
--                   Certified and Loaded have what follows
--   Telemetry       src/telemetry.rs: Record has TeleRecord, Clock run_clock_ghz and TeleCtx,
--                   Column the measured columns, overlap_fraction and gate_op, Ingest
--                   parse_tele_counted; Summary what the `telemetry` command of src/main.rs works
--                   out
--   Cli             src/main.rs: Args has Args::parse, Command what the commands share, Chains
--                   `latency` and `compose`, Kernels `ptxas` and `ncu`, Loops `project`, `census`
--                   and `check-sass`, Tables `mk-table` and `verify-projection`, Summary
--                   `telemetry`, Anchor and Gate `gate`, and Run run and main. Items, Outcome,
--                   Proven and Missing have what follows for `gate`, Ends, Launch, Strict, Written
--                   and Pure for the others
--   Sass            src/nvidia/sass.rs: Scan the scanner of a line, Functions parse_functions,
--                   HotLoop hot_loop, Mix loop_mix and census_per_kernel, Histogram census_csv;
--                   Read, Picked, Counted and Kernels have what they give
--   Projection      src/nvidia/table.rs (Rates) and src/nvidia/projection.rs: Census, the Tables of
--                   operations, the Demand of an operation, the Fold over a census, Project and
--                   Listed, the report; Tally, Peak, Filled, Flagged and Reported have what they
--                   give
--   Check           src/nvidia/check.rs: Tables and Bespoke the expectations, Cases which of them a
--                   function has, Purity the check of a disassembly, Shares the comparison of two;
--                   Passed, ShareOf and Matched have what an exit code of 0 says
--   Ncu             src/nvidia/ncu.rs: Export has parse_ncu_csv, metric_value and
--                   achieved_occupancy
--   Pyfmt           src/nvidia/pyfmt.rs: General has g6 and repr_f64; Digits, Notation and Printed
--                   have what the text stands for
--   MkTable         src/nvidia/mktable.rs, in the order of mk_table: Median, Rows the measurements,
--                   Labels the instructions and pipes, Grouping, Values the peaks, Judge the flags,
--                   and Table mk_table; ReadBack, Parted, Longest, Middle, PriorOf and Verified have what follows
--   Verify          src/nvidia/verify.rs: Rows the kernels, Judge verify_projection; Passed has
--                   what an exit code of 0 says
--   Dtype           dtype_bytes of src/nvidia/mod.rs
--
-- How state and operations correspond: a struct is a record, an enum a data type, a slice or a
-- vector a list, a string the list of its characters. A u32 is a native number, and where the
-- source saturates or wraps that is written out; divisions by zero do not occur where the source
-- guards them. A loop with mutable variables is a recursion that carries them, in the source's
-- order; in csvio.rs the variables are the record Reader. A Result is a sum, with one constructor
-- of an error type for each message of the source, such as RegistryError. A panic is an error value
-- too (SassPanic, ProjectPanic, CensusPanic, MkPanic, FmtPanic, VerifyStop), and ends main with the
-- code 101. A line of a disassembly is scanned by its bytes, so texts there are ASCII. Reading and
-- writing files, listing a directory, the calls of Path, and running the disassembler are
-- parameters; the commands have them in the record Cli.Command.World, whose answers do not change
-- in the course of a run. What a command prints is a record of its numbers, or a text where it is
-- CSV.
--
-- f64 is a parameter: the instance record Base/Float has the operations that the source uses, and
-- IsOrdered the facts of IEEE 754 that a theorem may assume, as a named hypothesis. Sample,
-- naturals with NaN, meets them. The printing of f64 by the standard library is a parameter too,
-- the record Base/Decimal.FloatText; Pyfmt assumes of it, as a named hypothesis, that `{:.5e}`
-- gives six digits and an exponent.
--
-- Pattern::new runs on fuel, one unit for each byte of the pattern, which each round of its loop
-- consumes at least one of. Printing an integer runs on one more than its value, which has no more
-- digits. Dropping each `used ` in front of a clause of a ptxas report runs on the clause's length.
-- Every other loop is a structural recursion.
--
-- Not modelled: the wording and the padding of what is printed, the texts of error messages, the
-- run of the disassembler, that a write changes a file, and the order of output before a late
-- error; the Kani proofs and the tests.
pub mod Base
pub mod Core
pub mod Csv
pub mod Pattern
pub mod Validity
pub mod Telemetry
pub mod Ptxas
pub mod Cli
pub mod Projection
pub mod Sass
pub mod Check
pub mod Ncu
pub mod Pyfmt
pub mod MkTable
pub mod Verify
pub mod Dtype
