-- ===== src/Lib.antt =====
-- Angie: a model of the core of the program, with its main properties.
--
-- Angie explores a program symbolically. A front end makes a control flow graph of a module of
-- LLVM, whose nodes hold operations. VerificationLoop takes states from a worklist and executes
-- the operation of the node that a state stands at on a copy of the state, the successor, which
-- goes back to the worklist. A state of the memory graph analysis has a value container, which
-- knows the constants and the constraints on values, and a symbolic memory graph, whose objects
-- are joined by edges. The graph asks the container for fresh values, and a branch asks it what is
-- known of a condition.
--
-- Common: the maps of the C++ library as sorted association lists (Common/Dict), code with a state and
--   exceptions (Common/Run) and what it keeps (Common/Outcomes), integers (Common/Int), words of 64
--   bits with their wrap round written out (Common/Words) and masks of their bits (Common/Bits).
-- Values: the ids, flags and enumerations of src/General.hpp, src/IdImpl.hpp and src/Values.hpp.
-- ValueContainer: src/ValueContainerV1.hpp and src/ValueContainerV1.cpp, with their state and helpers
--   in ValueContainer, InsertConstraint and DeleteConstraint in ValueContainer/Constraints, IsCmp,
--   IsInternalRepEq and IsZero in ValueContainer/Compare, Cmp and Assume in ValueContainer/Assume, and
--   BinOp, BitNot, ExtendInt and TruncateInt in ValueContainer/Arith, with the unsigned operations in
--   ValueContainer/Arith/Unsigned and the widths of products in ValueContainer/Arith/Widths.
--   ValueContainer/Valid has the invariants of the index of constraints and of the constants, and
--   ValueContainer/Model the assignments of words to values that a container allows.
-- Smg: src/Smg/, with the edges in Smg/Edge, the objects in Smg/Object, the searches for edges into an
--   object in Smg/InEdges, and the operations of the graph in Smg/Graph and Smg/Graph/Read.
--   Smg/Container makes the value container an instance of the interface that the graph takes.
--   Smg/Closed and Smg/WellFormed have the invariants of graphs, and Smg/Abstraction the search for
--   doubly linked regions and the class SubGraph of src/Smg/Abstraction.hpp.
-- FrontendTypes: what the operations ask of the types of src/Type.hpp.
-- Mapper: Mapper and FuncMapper of src/FrontedValueMapper.hpp.
-- Analysis: the states, nodes and the worklist of src/IState.hpp, src/CfgNodeBase.hpp and
--   src/StateStorage.hpp. Analysis/Operations has the templates of src/Operation.hpp,
--   Analysis/Branch the conditional branch, and Analysis/Loop has VerificationLoop and Verify of
--   src/main.cpp. Analysis/Args has the arguments of operations of src/General.hpp, and
--   Analysis/CommonOperations the operations that the analyses share.
-- MemoryGraph: src/MemoryGraphAnalysis.hpp, with its state and what it does to the memory in
--   MemoryGraph, the stack of calls in MemoryGraph/Frames, the operations on memory in
--   MemoryGraph/Operations, and calls, returns and the table of operations in MemoryGraph/Calls.
-- NullAnalysis: src/ForwardNullAnalysis.hpp, with its call in NullAnalysis/Calls and what
--   the call binds in NullAnalysis/Arguments.
-- Llvm: what the front end asks of a module of LLVM, which is not part of the repository: a record of
--   methods, with the opcodes, predicates and classes of constants that are told apart.
-- LlvmFrontend: LlvmCfgNode and LlvmCfgParser of src/LlvmFrontend.hpp and src/LlvmFrontend.cpp, with
--   the nodes and the state of the parser in LlvmFrontend, the operations and arguments of
--   instructions in LlvmFrontend/Operands, ParseBasicBlock and the links in LlvmFrontend/Blocks, and
--   ParseModule and the constants in LlvmFrontend/Module. LlvmFrontend/Chains has the invariant of the
--   parser and the chain of nodes that stands for a block, and LlvmFrontend/Refinement the graph of a
--   whole module. LlvmFrontend/Predicates is about the flags of comparisons.
--
-- A static counter of ids stands in the record of the state that uses it. That of objects, an
-- int64_t, has no bound here: its overflow is not defined, after 2 ^ 63 objects. A member function
-- that throws keeps the state that it had reached. A pointer or a reference to a state is its
-- position in the pool, and one to an object or an edge is its id or its offset. Types of the
-- analysed program are a parameter, of which Smg.TypeSystem lists the questions that are asked;
-- the container is one too, given by Smg.IValueContainer.
--
-- VerificationLoop has fuel, and its result says whether the worklist was empty when it ended: the
-- analysis of a program with loops need not end. The other loops are structural, over the list
-- that they walk; the loop of BSR has 64 rounds, which empty a word.
--
-- The static counters of a container are copied with it when its state is cloned, so that what one
-- branch of the analysis adds to a counter is not seen in the other.
--
-- The constructor that clones a state leaves its pointer stackRetNode unset, and here it is
-- copied: OperationCall sets it before StackPush reads it. The loop of SubGraph has fuel too; one
-- unit for each object of the graph and one for the root is enough. The loop of ParseModule over
-- the planned blocks has fuel; two units for each block of the module are enough. Messages on the
-- console, breakpoints and the drawing of the memory are left out.
--
-- Not modelled: Memset and the table of operations of the second analysis
-- (src/ForwardNullAnalysis.hpp), which the program does not select; the reading of an IR file and
-- the wrappers of the types of LLVM, which only call LLVM; the Z3 container, which is a
-- translation to the solver's own terms; the types of src/AngieType.cpp, which are not compiled by
-- default; the printing of graphs, and the console.
pub mod Common
pub mod Values
pub mod FrontendTypes
pub mod ValueContainer
pub mod Smg
pub mod Llvm
pub mod LlvmFrontend
pub mod Mapper
pub mod Analysis
pub mod MemoryGraph
pub mod NullAnalysis
