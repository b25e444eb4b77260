-- ===== src/CpsUtils.antt =====
-- src/nas_acl_cps_utils.cpp: values between CPS objects and lists of nas_acl_common_data_t.
pub mod Read
pub mod Write
pub mod Fits
pub mod Reports
pub mod Copied
pub mod Added
pub mod Written
pub mod Ranges
use Prim.Native.String.{String}
use sonic_nas_acl.CpsMap.{DataType}

unfoldable pub nas_acl_obj_data_type_to_str : DataType → String
nas_acl_obj_data_type_to_str DataType.nothing = "NONE"
nas_acl_obj_data_type_to_str DataType.u8 = "U8"
nas_acl_obj_data_type_to_str DataType.u16 = "U16"
nas_acl_obj_data_type_to_str DataType.u32 = "U32"
nas_acl_obj_data_type_to_str DataType.u64 = "U64"
nas_acl_obj_data_type_to_str DataType.obj_id = "OBJ-ID"
nas_acl_obj_data_type_to_str DataType.bin = "BIN"
nas_acl_obj_data_type_to_str DataType.iflist = "IFLIST"
nas_acl_obj_data_type_to_str DataType.embedded = "EMBEDDED"
nas_acl_obj_data_type_to_str DataType.opaque = "OPAQUE"
nas_acl_obj_data_type_to_str DataType.ifindex = "IFINDEX"
nas_acl_obj_data_type_to_str DataType.embedded_list = "INVALID"
