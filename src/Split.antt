-- ===== src/Split.antt =====
-- tools/split_plan: a deployment plan is split into sub plans. `Plan` is the plan as far as the
-- splitting reads or writes it, `Interface` what the template `Split_Plan` asks of a splitter,
-- `Selection` and `Copying` its two phases, `Node` and `Locality` the two splitters.
pub mod Plan
pub mod Interface
pub mod Selection
pub mod Invariant
pub mod Copying
pub mod Ranges
pub mod Additions
pub mod Guarded
pub mod Total
pub mod Descriptions
pub mod Contents
pub mod Selected
pub mod Tests
pub mod Node
pub mod Locality
