-- ===== src/Lib.antt =====
-- outcome: a distributed simulation engine. This library models its core, the crate in outcome-core,
-- and proves what the parts do.
--
-- The parts and how they interact. A simulation (Sim, outcome-core/src/sim) holds a model (Model,
-- outcome-core/src/model/mod.rs) and entities (Entity, outcome-core/src/entity/mod.rs). An entity has a
-- storage (Storage, outcome-core/src/entity/storage.rs) of typed values (VarType and Var,
-- outcome-core/src/var.rs), which addresses name (Address, outcome-core/src/address.rs), and attached
-- components, each with a state. Events trigger components; a step (Sim/Step) executes for each of them
-- the commands of its state (Machine, outcome-core/src/machine), within the entity at first. What a
-- command asks of the rest of the simulation is queued, and executed after all entities (Sim/Remote).
-- In a distributed simulation the nodes (Distr/Node) hold the entities and execute the local phase, and
-- the central authority (Distr/Central) gathers what their commands ask of it. Queries (Query) read the
-- entities; a server (Server) advances a simulation as far as its clients agree, and sends them data.
--
-- Files and the code that they model:
--   Data: the shared data types. VarType, Var: the types and the values; Var/Access the checked
--     accessors, Var/Convert the conversions, Var/Parse the reading of texts. Std: the operations on
--     f32 and the Debug texts, which are parameters.
--   Address, Address/{Short, Local, Partial}: one module for each kind of address.
--   Storage, Entity: the map of an entity, and attaching and detaching its components.
--   Machine: locations, prototypes, call frames and errors (machine/mod.rs, machine/error.rs);
--     Machine/Search is `command_search`; Machine/Command the data of the commands (machine/cmd);
--     Machine/Flow the commands that steer, as they run, and Machine/Flow/Blocks how they are made
--     (machine/cmd/flow); Machine/Execute the other commands and `Command::execute`; Machine/Exec
--     `execute_loc` (machine/exec.rs).
--   Sim: spawning, events, and access to variables by address; Sim/Remote the `execute_ext` of the
--     commands; Sim/Step `step` and `step_entity_local`.
--   Script: the conditionals and eliminations of the preprocessor (machine/script/preprocessor.rs), and
--     in Script/Bridge `apply_offset` of bridge.rs.
--   Distr: several nodes under a central authority (distr). Distr/Node is node.rs, Distr/Central
--     central.rs with the sub-modules Commands and Network; Distr/Union puts both together. A
--     connection is the list of what is received on it, and what is sent is returned as a list.
--   Query: queries of a simulation (query.rs), in Query/Select the filters, in Query/Pack the mappings,
--     the layouts and the combination of the answers of several nodes.
--   Server: a server over a local simulation (outcome-net/src/server, outcome-net/src/msg). Server/Turn is
--     turn.rs, Server/Transfer the transfer of data in mod.rs.
--   Prelude: shared types, operators and lemmas. Tests: the theorems at concrete inputs.
-- The other modules hold lemmas and theorems, named for what they are about.
--
-- Correspondence. Operations have the source's names; a method through a mutable reference is a
-- function from the old state to the new one, and an assignment through `…_mut` is a `set_…`. Hash maps
-- are association lists, iterated in their order. `Result` has a third case, `panic`, for `unwrap`,
-- `unimplemented!` and indices out of bounds. Where an operation fails halfway, it returns the state as
-- it leaves it beside the error. Log messages are left out, and the text of an error is kept as the
-- values that it is made from.
--
-- Configuration: the features `machine` and `machine_script` are on, the others off; so `StringId` is
-- `String`, `Int` an i32 and `Float` an f32, of which the models keep the bits. Arithmetic on machine
-- words wraps, as in a release build on a 64-bit machine; lines, which are indices of commands in
-- memory, are too small to.
--
-- Bounds and fuel. A call stack has 32 places. `execute_loc` may never end, so it runs on fuel, one
-- unit a round, and returns `none` when there is too little; commands that only go forward need at most
-- one round more than there are commands. The loop in which the central authority reads its nodes runs
-- on a number of rounds, and enough of them are shown to end it when the nodes send what a step of theirs
-- sends. A turn of the server gives its fuel to each step. The other loops are structural.
--
-- Not modelled: the script parser, the rest of the bridge and the other requests of the server, which
-- are planned; files, manifests, snapshots, sockets and the command line, which are input and output; Lua
-- and dynamic libraries, whose features are off. The threads of a step are modelled in one order, that
-- of the map of entities. Of the crates that the code calls, the id pool, the shuffle of the nodes,
-- fasteval and the search in a sorted slice are parameters, and so are the operations on f32. An error
-- in a step of a turn is not followed further.
pub mod Prelude
pub mod Data
pub mod VarType
pub mod Std
pub mod Var
pub mod Address
pub mod Storage
pub mod Machine
pub mod Model
pub mod Entity
pub mod Sim
pub mod Query
pub mod Distr
pub mod Server
pub mod Script
pub mod Tests
