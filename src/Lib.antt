-- ===== src/Lib.antt =====
-- dancex11 deploys component-based applications: the execution manager of a domain splits a deployment
-- plan over the nodes and sends each sub plan to the manager of its node
-- (dancex11/domain_deployment_handler); a plan is split over nodes and localities (tools/split_plan), each
-- locality runs the events of its instances over plugins (dancex11/scheduler), and all parts share the
-- property utilities and the deployment state (dancex11/core).
--
-- The modules and what they model:
-- Prelude: the shared names, Boolean tests, list and text lemmas.
-- StringMap: std::map and std::set with text keys, as lists in key order, as far as the code uses them;
-- the order is that of std::string.
-- Sorter: dancex11/scheduler/dependency_sorter.{h,cpp}. The state is the dependency map; calculate_order
-- is a loop on fuel, one more than the entries of the map, since a round takes one entry out or ends.
-- An order is a result, as is the throw of Invalid_Install_Order with what was pushed before it.
-- Utility: dancex11/core/dancex11_utility.cpp and dancex11_utility_t.cpp. A CORBA::Any is a type of its
-- own, with insertion and extraction as parameters. tokenize runs on fuel, the length of the text plus
-- one, since a round of its loop takes a character. Exceptions holds the encoding of exceptions in
-- an Any.
-- Split: tools/split_plan. Interface is what the template Split_Plan asks of a splitter, which Node
-- (node_splitter.cpp) and Locality (locality_splitter.{h,cpp}) fill. Selection and Copying are the
-- phases of split_plan.cpp. A reference out of range, which is undefined in the source, gives no
-- result. The members of a plan that are only copied along are left out.
-- Events: dancex11/scheduler. Counter is completion_counter_base.{h,cpp}, with the wrap-around of its
-- 32-bit counters; Completion is completion_base.h, and its clients' protocol a step relation; Action is
-- events/action_base.cpp, over the members that the derived events override; Scheduler is
-- deployment_scheduler.cpp with the waiting in one thread of deployment_default_wait_strategy.cpp, on
-- fuel, the length of the queue plus one, since a round performs an event. Kinds has the event classes
-- of events/, from install.cpp to remove.cpp, over records of the calls of a plugin. The methods run one at a
-- time, as under their locks.
-- Plugins: dancex11/scheduler/events/plugin_manager.{h,cpp}, on Sorter, Utility and State. A plugin is a
-- record of what its virtual calls do; the loading of shared libraries and the ACE service configurator
-- are parameters.
-- LocalityManager: dancex11/locality_deployment_handler/dancex11_locality_manager_impl.{h,cpp}, as actions
-- on the manager and on what the scheduler changes, which end with a value, an exception or an undefined
-- read. Launch is the way up (startLaunch, finishLaunch, start), Teardown the way down; Runtime is what
-- the manager asks of the scheduler and of the Any, and Performing fills its waiting with Events.
-- State: dancex11/core/dancex11_deployment_state.{h,cpp}. ORB_init and the resolving of the root POA are
-- parameters.
-- ArtifactInstallation: tools/artifact_installation/artifact_installation_impl.{h,cpp}. The state has the
-- registries of the artifacts of each plan, and the handlers, which act on a world of their own; a
-- registry counts its installations modulo 2 ^ 32. Locations is parse_uri.
-- NodeLocator: dancex11/domain_deployment_handler/dancex11_node_locator.{h,cpp}. The domain file, the
-- object references and the naming service are parameters.
-- Interceptors: dancex11/handler/interceptors/standard_error.cpp and best_effort.cpp, over Events.
-- Domain: dancex11/domain_deployment_handler. Requests are the asynchronous calls and the waiting for their
-- replies (dancex11/scheduler/deployment_orb_wait_strategy.cpp), on Events; Texts, Replies and Application are
-- dancex11_ddh_application_impl.{h,cpp}, Nodes and Manager dancex11_ddh_application_manager_impl.{h,cpp},
-- over Split and Application, and Execution is dancex11_execution_manager_impl.{h,cpp}, over Manager and
-- NodeLocator. The ORB and the activation of servants are parameters; where the replies end before all
-- requests are completed, an operation is blocked. The loop of destroyManager is on fuel, one more than
-- the applications, since a round erases one or ends.
--
-- Not modelled: logging, file and network input and output, the generated IDL and XML code, the
-- configuration parser, the applications of the nodes, the shutdown of a locality, the waiting of
-- several threads, and the memory and threads of the ORB.
pub mod Prelude
pub mod StringMap
pub mod Sorter
pub mod Utility
pub mod Split
pub mod Events
pub mod State
pub mod Plugins
pub mod LocalityManager
pub mod ArtifactInstallation
pub mod NodeLocator
pub mod Interceptors
pub mod Domain
