-- ===== src/Lib.antt =====
-- Verification of Gegelati, the C++ library of tangled program graphs: graphs of teams and actions
-- whose edges carry register programs that bid for the edge, evolved by mutation.
--
-- The parts and their files:
-- - Base: tests on native numbers, lists, results of code that throws, integers.
-- - Data, Data/Arrays: gegelatilib/include/data/dataHandler.h (an abstract class, here a record
--   of its methods over one content), arrayWrapper.h, primitiveTypeArray.h and constantHandler.h.
--   A DataHandler answers for C++ types with an address space each; scale_location, get_data_at
--   and get_addresses_accessed are scaleLocation, getDataAt and getAddressesAccessed.
--   Data/Reading is about the reads at the locations of an address space, Data/Writing about
--   setDataAt.
-- - Environment: gegelatilib/src/environment.cpp and src/instructions. An Environment fixes the
--   instructions, the data sources and the sizes that programs are made of; new_environment is
--   its constructor. Environment/Given and Environment/Laws say what it makes of its arguments.
-- - Program: gegelatilib/src/program/line.cpp and program.cpp. Program/Introns is
--   identifyIntrons, Program/Introns/Clear clearIntrons, Program/Behavior hasIdenticalBehavior,
--   Program/Engine the engines programEngine.cpp and programExecutionEngine.cpp.
--   Program/Engine/Loop relates the program counter to a recursion over the lines,
--   Program/Engine/Reads, Steps and Soundness relate what lines read to the registers that the
--   scan for introns keeps.
-- - Graph: gegelatilib/src/tpg/tpgGraph.cpp with its vertices, edges and actions. Graph/Lookup,
--   Graph/Kinds and Graph/Ends have the laws of the lists, Graph/Invariant the invariant,
--   Graph/Acyclic the ranks of the vertices of a graph without cycles, Graph/Connect
--   addNewEdge, Graph/Disconnect removeEdge, Graph/Unlinking and Graph/Removal removeVertex,
--   Graph/Clearing clear, Graph/Redirect setEdgeDestination, Graph/NewSource setEdgeSource,
--   Graph/Copying and Graph/Cloning cloneVertex, Graph/Roots getRootVertices, and Graph/Steps the
--   calls that refuse. Graph/Relink has each call as a change of one edge.
-- - Archive: gegelatilib/src/archive.cpp. Archive/Mapping relates the two maps to the list of
--   recordings, Archive/Invariant states this as an invariant, Archive/Eviction and
--   Archive/Adding are about addRecording, Archive/Unique about areProgramResultsUnique.
-- - Execution: gegelatilib/src/tpg/tpgExecutionEngine.cpp. Execution/Team is evaluateTeam,
--   Execution/Root executeFromRoot, Execution/Valid is about graphs of valid programs, and
--   Execution/Populated about the graphs that populateTPG makes.
-- - Doubles and Rng: interfaces for the type double and for gegelatilib/src/mutator/rng.cpp.
-- - Mutator: gegelatilib/src/mutator/lineMutator.cpp. Mutator/Sources is the search for a data
--   source, Mutator/Operands and Mutator/Renewal are about one operand, Mutator/Indexes about
--   correct lines, Mutator/Fresh, Mutator/Lines and Mutator/Alter about initRandomCorrectLine and
--   alterCorrectLine, and Mutator/OneRegister about an Environment of one register.
-- - ProgramMutator: gegelatilib/src/mutator/programMutator.cpp. ProgramMutator/Valid and
--   ProgramMutator/Changes are about each change, ProgramMutator/Mutate and ProgramMutator/Init
--   about mutateProgram and initRandomProgram. ProgramMutator/Providers and ProgramMutator/Runs
--   relate valid programs to their execution.
-- - GraphMutator: gegelatilib/src/mutator/tpgMutator.cpp, of which GraphMutator/Removal is
--   removeRandomEdge, GraphMutator/Thinning the first loop of mutateTPGTeam, and
--   GraphMutator/Targets mutateEdgeDestination. GraphMutator/Own, Steps and Loops follow the
--   edges of one team, through addRandomEdge and the second loop too. GraphMutator/Team is the
--   rest of mutateTPGTeam, with mutateOutgoingEdge in Team/Bred and the rounds in Team/Rounds.
--   GraphMutator/Population is populateTPG: Population/Lists has the lists that it takes of the
--   graph, Population/Herd the graphs between its rounds, Population/Growth one round and
--   Population/Rounds the loop.
-- - LearningAgent: what gegelatilib/src/learn/learningAgent.cpp does with the results of a
--   generation. LearningAgent/Decimate and LearningAgent/Worst are decimateWorstRoots,
--   LearningAgent/Records is updateEvaluationRecords, LearningAgent/Policy and Policy/Keeping
--   keepBestPolicy. LearningAgent/Classification is the results of
--   gegelatilib/src/learn/classificationEvaluationResult.cpp.
-- Programs run in an Environment and read its data sources; the graph refers to programs by number.
-- The execution of a graph runs the programs of its edges and gives their bids to the archive; the
-- mutators make the programs, and the learning agent removes roots from the graph.
--
-- Conventions. Values of type double are an abstract type D with its 0.0 as an argument, and the
-- results of instructions are those of the instruction's own function. The ceiling of the binary
-- logarithm, which the C++ library computes, is an argument. An exception is an error value, named
-- for its class; behaviour that C++ leaves undefined is the error `undefined`. Objects of the graph
-- are known by number; a call that throws returns the graph that it leaves.
-- The hash of a data source is a field of its record.
-- Random numbers come from an interface over the state of the engine; its law is that
-- getUnsignedInt64 stays in its range.
-- Loops. The loops of clearIntrons, next, iterateThroughtProgram and hasIdenticalBehavior are
-- recursions on fuel, with as many rounds as the program has lines (one more for
-- hasIdenticalBehavior), since each round moves on by a line or removes one. The loop of
-- addRecording has as much fuel as there are recordings, clear of the graph as there are vertices,
-- the search for a data source as there are sources, the loops of initRandomProgram as many rounds
-- as lines to remove or to insert: each round takes or tries one of them. The first loop of
-- mutateTPGTeam takes its fuel as an argument, and needs as many rounds as the team has edges. Its
-- second loop has maxOutgoingEdges rounds, since each adds an edge. Its third loop ends when some
-- edge has been mutated, which the random numbers decide: it is `none` when its fuel runs out, and an
-- engine that draws a number below pProgramMutation after at most some number of others bounds it.
-- The loop of populateTPG is `none` when its fuel runs out, and needs one round for each root to
-- reach, since each round adds a root that stays one.
-- The loop of keepBestPolicy is `none` when its fuel runs out, and needs at most a round for each
-- vertex and one more, since each round but the last removes a vertex.
-- executeFromRoot, which does not end on a cyclic graph, is `none` when its fuel runs out; on a
-- graph whose edges lead to lower ranks, the rank of the root is the fuel it needs.
-- Not modelled: the memo of address spaces and the computation of hashes, two-dimensional and
-- pointer data sources, initRandomTPG and the mutation of the new programs (tpgMutator.cpp), the
-- evaluation of jobs and the training loop, the evaluation loops of the learning agents for
-- classes and adversaries and of the parallel one, statistics, loggers, code generation and
-- files. The results of an agent are of the class EvaluationResult itself, and those of
-- LearningAgent/Classification of one class too, so that the type test of operator+= never
-- fails. The checks of addresses are those of a build without NDEBUG.
mod Base
pub mod Doubles
pub mod Rng
pub mod Data
pub mod Environment
pub mod Program
pub mod Archive
pub mod Mutator
pub mod ProgramMutator
pub mod Graph
pub mod Execution
pub mod LearningAgent
pub mod GraphMutator
