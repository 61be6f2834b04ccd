-- ===== src/Lib.antt =====
-- Vulpexa is a self-hosted tool that monitors and manages a small fleet of computers and phones.
-- Agents on the devices (agent/, Go) keep a socket to the server (backend/, Python), and the
-- dashboard (frontend/, TypeScript and React) shows what the server knows and starts jobs. This
-- development models the dashboard's own logic: the modules under frontend/src that compute from
-- the server's data what a page shows, and the hooks that keep a page up to date. They share the
-- data model; the pages call the list modules on the devices, alerts and patch counts that the
-- fleet hook loads.
--
-- Fleet: the data model (frontend/src/types.ts) and the status of one device
--   (frontend/src/deviceStatus.ts, deviceClass.ts: deviceState, mobileState, deviceStatusKind,
--   alertStatusKind).
-- Patches: the update page: of frontend/src/pages/patches/patchList.ts filters, address form of
--   the sort, sortDevices, patchStats, categoryStats and iosStats, of PatchesPage.tsx beside it
--   the rows and counts (List) and the rounds of scans and installations, a step relation (Orders,
--   Notices, Actions).
-- Refresh: createRefreshScheduler of frontend/src/hooks/useFleet.ts. A record holds the variables
--   of the closure; run, request, the timeout and the settling of a load are functions on it;
--   Refresh/Steps is the relation of all interleavings.
-- FleetSocket: useFleetSocket of the same file, with its reconnects.
-- JobStream: frontend/src/hooks/useJobStream.ts. One function for each handler of the socket, and
--   a relation of the orders in which the browser calls them.
-- Pagination: frontend/src/hooks/usePagination.ts, both hooks and the remembered page size.
-- Bulk: frontend/src/pages/devices/bulk.ts. runBulk as a relation of settling calls, and
--   partition.
-- Alerts: frontend/src/pages/alerts/alertList.ts and the acknowledging of AlertsPage.tsx beside it
--   (Desk): tabs, order, badges, what is still to acknowledge and the report on it.
-- Devices: filters and sort of frontend/src/pages/devices/deviceList.ts, the rows and the
--   selection of DevicesPage.tsx (Page, Selection), the saved views of savedViews.ts beside it,
--   and the order of versions of frontend/src/version.ts.
-- Board: the tiles of the overview, frontend/src/pages/overview/fleetBoard.ts.
-- Days: groupByDay of frontend/src/pages/audit/auditLog.ts, which is byDay of
--   frontend/src/pages/device/timeline.ts too.
-- Rules: frontend/src/ruleText.ts, the sentences on alert rules and effectiveRule.
-- Tasks: frontend/src/overviewTasks.ts: buildTasks (Tasks/Build) and verdict.
-- Persons: frontend/src/pages/persons/personsMeta.ts: facts, verdict, rows and search.
-- Accounts: frontend/src/pages/admin/accounts.ts (Forms, Sort) and confirmations.ts (Confirm).
-- Auth: frontend/src/hooks/useAuth.ts. One function for each handler; Auth/Private is the
--   invariant and Auth/Steps the relation of their orders.
-- Api: the messages of frontend/src/api/client.ts (Json, Issue, Error, Laws) and
--   frontend/src/pages/login/loginError.ts (Login).
-- Palette: frontend/src/shell/palette/ranking.ts (Tier, Score, Rank), paletteModel.ts (Model,
--   Build), recent.ts (Recent) and frontend/src/deviceLabel.ts (Label).
-- Nav: frontend/src/routes.ts, frontend/src/shell/nav.tsx and
--   frontend/src/pages/device/deviceTabs.ts: pages, navigation and tabs, and the roles that see
--   them.
-- Track: the jobs that are followed to their end, frontend/src/ui/toast.tsx. One function for each
--   timeout and answer, for one job (Track) and for many with one toast (Track/Round); Track/Steps
--   is the relation of all interleavings with sign-outs.
-- Address: the query of the address, as the pages under frontend/src/pages read and write it.
-- Audit: the filters of the audit log, frontend/src/pages/audit/auditLog.ts and AuditPage.tsx.
-- Enroll: the commands that connect a device, frontend/src/shell/enroll/enrollCommands.ts.
-- Software: the scripts of frontend/src/softwareCatalog.ts; Quotes is how a shell reads the quotes
--   of a command.
-- Csv: frontend/src/csv.ts, and a reader of its own (Csv/Reader) to compare it with.
-- Boot: the mode and the dots of frontend/src/boot/bootPlan.ts.
-- Shortcuts: the key handler of frontend/src/hooks/useShortcuts.ts.
-- Base: lists and tests on native numbers, comparators, and a stable insertion sort that stands
--   for Array.prototype.sort, which is stable too.
--
-- Times, ids and counts are natural numbers; times are whole seconds or milliseconds as in the
-- source, and the clock of Refresh never runs backwards. Percentages are whole numbers of
-- millionths. The loops of the code run over lists, and the models recurse on them, with two
-- exceptions. The digits of a number (Base.Text.decimal) have the number as fuel, which bounds
-- them. The loop of assignDotStates that makes the counts add up has the distance of their sum
-- from the wanted number as fuel; each round brings the sum one nearer, so it is enough
-- (Boot/Balance). A German collation (Intl.Collator) is a parameter whose comparison is a
-- consistent order; Number(), JSON.parse, trim, toLowerCase and the formats of the browser are
-- parameters too.
--
-- Not modelled: rendering, HTTP calls, locale formatting, float computations such as the share in
-- percent, the server and the agent; and of the dashboard's logic the exports of the device list
-- and of the audit log, MDM profiles and schedules.
pub mod Accounts
pub mod Address
pub mod Alerts
pub mod Api
pub mod Audit
pub mod Auth
pub mod Base
pub mod Board
pub mod Boot
pub mod Bulk
pub mod Csv
pub mod Days
pub mod Devices
pub mod Enroll
pub mod Fleet
pub mod FleetSocket
pub mod JobStream
pub mod Nav
pub mod Pagination
pub mod Palette
pub mod Patches
pub mod Persons
pub mod Quotes
pub mod Refresh
pub mod Rules
pub mod Shortcuts
pub mod Software
pub mod Tasks
pub mod Track
