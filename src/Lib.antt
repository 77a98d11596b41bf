-- ===== src/Lib.antt =====
-- Verification of ContainerHub, a manager of Docker Swarm services with a back end
-- (packages/containerhub-back), agents on the nodes (packages/containerhub-agent) and a front end
-- (packages/containerhub-front). The development models the core of the back end, most of it under
-- packages/containerhub-back/src/modules/services/.
--
-- The parts, and the files that model them:
--
-- - Image: helpers/parseDockerImageReference.ts, the parser of image references.
-- - DockerSpec: the records of a Docker service specification that the next two parts share.
-- - ServiceSpec: services/ServiceSpec.ts, `toServiceSpec`, from an input and the specification that is
--   updated to the one that Docker is sent. ServiceSpec.Input holds the inputs, ServiceSpec.Parts the
--   helpers.
-- - ServiceModel: helpers/mapInspectToServiceModel.ts, from what Docker says of a service to the model
--   that is shown. It uses Image and DockerSpec.
-- - ServiceList: services/ServiceFilters.ts and `paginateServices` of services/ServiceService.ts, over
--   the models of ServiceModel. FilterParsing reads the filters of a request in the same file.
-- - ServiceMutations: the restarts and removals of services/ServiceService.ts with the audit log of
--   services/ServiceMutationAudit.ts. Docker is a record of calls over a world of its own.
-- - ServiceLifecycle: the services that services/ServiceService.ts finds, creates and updates, with their
--   networks. It uses ServiceSpec, ServiceModel and the audit log of ServiceMutations.
-- - GhostContainers: `fetchGhostContainers` of services/ServiceService.ts.
-- - TaskInspect: `redactTaskInspect` of services/ServiceService.ts, over values of JSON.
-- - TaskLog: services/TaskLogDecoder.ts, both decoders of Docker's multiplexed logs.
-- - TerminalSession: services/TerminalSessionService.ts, the registry of terminal tickets.
-- - Monitorization: modules/monitoring/services/TaskMonitorizationManager.ts, the passes of
--   `checkTasks` over the records in memory; Monitorization.Polling models start, stop and the timer.
-- - AgentTerminal: packages/containerhub-agent/src/terminalRoutes.ts, the terminal on an agent;
--   AgentTerminal.Control is the control message that the agent and the back end read.
-- - TerminalGateway: routes/TerminalRoutes.ts, the socket of a user. It redeems a ticket of
--   TerminalSession and is joined to the terminal of an agent.
-- - Collection: modules/monitoring/services/MonitoringCollector.ts; Collection.Samples is
--   MonitoringSampleService.ts beside it.
-- - MonitoredServices: MonitoringService.ts beside it.
-- - Registry: modules/registry/services/RegistryService.ts and the reading of pages of
--   modules/gitlab/services/GitLabService.ts; Registry.Images is what is asked and answered.
-- - ImageUsage: packages/containerhub-front/src/images/, both files.
-- - ClientCsv: packages/containerhub-front/src/cruds/clientCsvExport.ts; ClientCsv.Reader is a reader of
--   its own, against which the export is held.
-- - Navigation: packages/containerhub-front/src/navigation.ts and router/index.ts.
-- - Prelude: what the parts share. Prelude.Tests and Prelude.Lists hold Boolean tests and lists over
--   native numbers, Prelude.Text the string functions of JavaScript that the source calls,
--   Prelude.Dict maps with text keys, Prelude.Faults calls that may throw.
--
-- A definition has the name of the function that it models, in snake case; a part of a longer function
-- has a comment that quotes it. Optional fields are `Option`, where `undefined` and `null` are one;
-- objects with text keys are association lists in the order of insertion, so the order that JavaScript
-- gives to keys like numbers is not modelled. A call that throws is an `Outcome`. Texts are lists of
-- code points, where JavaScript has units of 16 bits; the separators and patterns of the source are
-- ASCII. A function that awaits is modelled as one step, with the answers of Docker, of the agents and
-- of the repositories as parameters.
--
-- Where several parties act at once, as on the two sockets of a terminal, a part is a state that events
-- change: an event is what a party or a timer does between two waits of the code, with what the code
-- reads then, and the theorems range over all sequences of events. A stream is its counts: what was
-- passed on, and what waits. That a stream is paused while a send is under way is not modelled.
--
-- Loops are recursive over their list, but for two: the frames of TaskLog are read in as many rounds as
-- there are bytes at hand, as each frame takes at least eight; the loop of Monitorization over an array
-- that its own rounds make longer has two rounds for each record and one to end. The loops over the
-- pages of a registry and over the samples to delete take fuel, and one more round than there are
-- addresses or samples is enough.
--
-- Not modelled: the schemas of zod, whose results are the inputs of ServiceSpec; the conversion of
-- numbers between seconds and nanoseconds, upper and lower case, `localeCompare`, `Date.parse`, the
-- array's sort and Node's UTF-8 decoders, which are parameters; of an endpoint specification and a DNS
-- configuration, all but the ports and the name servers; the scheduler of the collector and the statistics of containers; the client of an
-- agent's terminal, the provisioning of host volumes, the agent's configuration and its other routes;
-- the pipelines of GitLab; and of the front end its pages, its tables and the filters of lists.
pub mod Prelude
pub mod Image
pub mod TaskLog
pub mod DockerSpec
pub mod ServiceSpec
pub mod ServiceModel
pub mod TerminalSession
pub mod Monitorization
pub mod TaskInspect
pub mod ServiceList
pub mod GhostContainers
pub mod ServiceMutations
pub mod AgentTerminal
pub mod TerminalGateway
pub mod Navigation
pub mod ImageUsage
pub mod Collection
pub mod MonitoredServices
pub mod Registry
pub mod ServiceLifecycle
pub mod ClientCsv
pub mod FilterParsing
