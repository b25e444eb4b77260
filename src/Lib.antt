-- ===== src/Lib.antt =====
-- The access control lists of a network switch: the NAS ACL component of sonic-nas-acl, in C++. A
-- client configures tables, entries and counters by CPS requests; the component keeps them per
-- switch, checks them, and installs them in the network processors (NPUs) through the NDI
-- library.
--
-- The program's parts and the files that model them:
--
--   Base, Result, Map, IdSet: shared names and tests, results of code that throws, maps and sets
--     as lists. A map keeps the order in which keys were added.
--   Env, Ndi: what the component calls and does not implement, as records of operations. The laws
--     of the id generator (nas::id_generator_t) and of the base object (nas::base_obj_t) state
--     what the code relies on; the interface table of the HAL and the calls of the NDI have none.
--   Types: the match and action types of the generated header, by name.
--   Common, CpsMap (sonic/nas_acl_common.h, sonic/nas_acl_cps.h): the values that pass between
--     CPS objects and filters or actions, and the rows of the maps that describe them.
--   FilterMap (src/nas_acl_cps_filter_map.cpp): the 32 rows of the filter map.
--   Filter (sonic/nas_acl_filter.h, src/nas_acl_filter.cpp): nas_acl_filter_t. Filter.Values has
--     the methods that set and get values, Filter.Ndi the copy to the NDI, the NPU list and the
--     comparison. A union of C is a sum of its members, and reading a member that was not written
--     is an error.
--   Action (sonic/nas_acl_action.h, src/nas_acl_action.cpp): nas_acl_action_t in the same way.
--   Utl (src/nas_acl_utl.cpp): the lookup of an interface.
--   Object (sonic/nas_acl_table.h, sonic/nas_acl_counter.h, sonic/nas_acl_entry.h): the fields of
--     the three kinds of objects, over the type of the base object.
--   Switch (sonic/nas_acl_switch.h, src/nas_acl_switch.cpp): nas_acl_switch, the store of all
--     objects. Switch.Ids has the ids, Switch.Entries the operations on entries and counters with
--     the references from counters to entries.
--   IdGuard (sonic/nas_acl_utl.h, src/nas_acl_utl.cpp): nas_acl_id_guard_t, which holds an id of
--     the switch.
--   NasTable, NasCounter, NasEntry (src/nas_acl_table.cpp, src/nas_acl_counter.cpp,
--     src/nas_acl_entry.cpp): the methods of the objects. A commit of the base class is an
--     argument of the commit that calls it. The commit of a deletion runs on the stored object
--     and gives the object back also when it fails: a failed request stores what the base class
--     left of it.
--   Layout: which values fit an attribute type, for filters and actions.
--   ActionMap (src/nas_acl_cps_action_map.cpp): the 26 rows of the action map.
--   CpsApi, CpsEnv: the library of CPS objects as a record of operations, of which three laws say
--     what an added attribute and a key that was set show, and the numbers of the generated
--     header. nas_acl_get_attr (src/nas_acl_cps.cpp) is in CpsApi.
--   CpsUtils (src/nas_acl_cps_utils.cpp): CpsUtils.Read copies the value of a filter or an action
--     from an object by the row of its map, CpsUtils.Write adds it to one.
--   CpsFilter, CpsAction (src/nas_acl_cps_filter.cpp, src/nas_acl_cps_action.cpp): filters and
--     actions of an entry from an object and to one.
--   CpsKey, Request (sonic/nas_acl_cps_key.h and the request handlers): the keys of an object;
--     what the handlers share, which are the result, the catch blocks and the id guard.
--   CpsTable, CpsCounter, CpsEntry (src/nas_acl_cps_table.cpp, src/nas_acl_cps_counter.cpp,
--     src/nas_acl_cps_entry.cpp): the handlers of write requests. CpsEntry.Update has the
--     requests for one filter or action (_cps_entry_incr_upd), CpsEntry.Write the others.
--   CpsStats (src/nas_acl_cps_stats.cpp): the statistics of a counter.
--   CpsDispatch (src/nas_acl_cps.cpp): the choice of a handler by the key, for writing and for
--     rollback.
--   Tests: instances of the parameters, and the theorems applied to concrete objects.
--
-- An exception is an error value; an exception that leaves a noexcept function, and a failed
-- assertion, is the error terminated; a read of memory that is not there and a call through a
-- null pointer are the error undefined_behaviour. A pointer or reference to a stored object is
-- its key. A handler returns its code, the two CPS objects and the switch; where an exception
-- interrupts the filling of the previous object, the model leaves that object as it was. Ids,
-- priorities and indices are natural numbers that are only stored and compared; the sums of
-- statistics wrap at 2^64 and a filled-in maximum at the width of its type. All loops are
-- structural recursion on lists, so there is no fuel. The accessors of CPS attributes are total,
-- as the library that has them is not part of the repository: what they read of an attribute that
-- is shorter than a number is not modelled, and the list of interfaces is read without a test of
-- the length. The memcmp of two filter structures is their equality as sums of members, so a
-- union member that was never written, which the constructor set to 0, differs from a written 0.
-- There is one switch, as the key functions give the default switch always.
--
-- Not modelled: the pushes of modified filters and actions to the NPUs with their rollback
-- (src/nas_acl_entry.cpp), the get requests for tables, counters and entries, the lock around a
-- request, the start of the service and the list of switches (src/nas_acl_init.cpp,
-- src/nas_acl_switch_list.cpp), which register with other services, logging, and the unit tests
-- and scripts.
pub mod Base
pub mod Result
pub mod Map
pub mod IdSet
pub mod Types
pub mod Env
pub mod CpsApi
pub mod CpsMap
pub mod CpsUtils
pub mod CpsEnv
pub mod CpsKey
pub mod Request
pub mod CpsTable
pub mod CpsCounter
pub mod CpsStats
pub mod CpsEntry
pub mod CpsDispatch
pub mod CpsFilter
pub mod CpsAction
pub mod ActionMap
pub mod Layout
pub mod FilterMap
pub mod Common
pub mod Utl
pub mod Filter
pub mod Action
pub mod Object
pub mod Switch
pub mod IdGuard
pub mod Ndi
pub mod NasTable
pub mod NasCounter
pub mod NasEntry
pub mod Tests
