-- ===== src/DeepCopy/Shapes.antt =====
-- apis/v1alpha1/types.go and global_network.go: the struct types by their fields.
use ack_networkmanager_contr.Prelude.{String}
use ack_networkmanager_contr.DeepCopy.{Kind, scalar, pointer, no_fields, field, slice}

-- The struct types of other repositories that the resource holds.
pub record LibraryKinds : Type 0 where
  pub object_meta : Kind
  pub list_meta : Kind
  pub resource_metadata : Kind
  pub condition : Kind

-- `*string` and `*metav1.Time`
abbrev string : String → Kind → Kind
string n = field n (pointer scalar)

abbrev time : String → Kind → Kind
time n = field n (pointer scalar)

abbrev pub tag : Kind
tag = string "Key" (string "Value" no_fields)

-- `[]*Tag`
abbrev tags : String → Kind → Kind
tags n = field n (slice (pointer tag))

abbrev pub aws_location : Kind
aws_location = string "Zone" no_fields

abbrev pub attachment : Kind
attachment = time "CreatedAt" (string "SegmentName" (tags "Tags" (time "UpdatedAt" no_fields)))

abbrev pub attachment_routing_policy_association_summary : Kind
attachment_routing_policy_association_summary = string "RoutingPolicyLabel" no_fields

abbrev pub connect_peer : Kind
connect_peer = time "CreatedAt" (tags "Tags" no_fields)

abbrev pub connect_peer_association : Kind
connect_peer_association = string "GlobalNetworkID" no_fields

abbrev pub connect_peer_summary : Kind
connect_peer_summary = time "CreatedAt" (tags "Tags" no_fields)

abbrev pub connection : Kind
connection =
    time "CreatedAt" (string "Description" (string "GlobalNetworkID" (tags "Tags" no_fields)))

abbrev pub connection_health : Kind
connection_health = time "Timestamp" no_fields

abbrev pub core_network : Kind
core_network =
    time "CreatedAt" (string "Description" (string "GlobalNetworkID" (tags "Tags" no_fields)))

abbrev pub core_network_change : Kind
core_network_change = string "Identifier" (string "IdentifierPath" no_fields)

abbrev pub core_network_change_event : Kind
core_network_change_event = time "EventTime" (string "IdentifierPath" no_fields)

abbrev pub core_network_change_event_values : Kind
core_network_change_event_values =
    string "CIDR" (string "NetworkFunctionGroupName" (string "SegmentName" no_fields))

abbrev pub core_network_change_values : Kind
core_network_change_values = string "AttachmentID" (
    string "CIDR" (
      string "DestinationIdentifier"
        (string "NetworkFunctionGroupName" (string "SegmentName" no_fields))))

abbrev pub core_network_network_function_group : Kind
core_network_network_function_group = string "Name" no_fields

abbrev pub core_network_network_function_group_identifier : Kind
core_network_network_function_group_identifier = string "NetworkFunctionGroupName" no_fields

abbrev pub core_network_policy : Kind
core_network_policy = time "CreatedAt" (string "Description" no_fields)

abbrev pub core_network_policy_version : Kind
core_network_policy_version = time "CreatedAt" (string "Description" no_fields)

abbrev pub core_network_routing_information : Kind
core_network_routing_information =
    string "LocalPreference" (string "Med" (string "Prefix" no_fields))

abbrev pub core_network_segment : Kind
core_network_segment = string "Name" no_fields

abbrev pub core_network_segment_edge_identifier : Kind
core_network_segment_edge_identifier = string "SegmentName" no_fields

abbrev pub core_network_summary : Kind
core_network_summary = string "Description" (string "GlobalNetworkID" (tags "Tags" no_fields))

abbrev pub customer_gateway_association : Kind
customer_gateway_association = string "GlobalNetworkID" no_fields

abbrev pub device : Kind
device = time "CreatedAt" (
    string "Description" (
      string "GlobalNetworkID" (
        string "Model"
          (string "SerialNumber" (tags "Tags" (string "Type" (string "Vendor" no_fields)))))))

abbrev pub edge_override : Kind
edge_override = string "UseEdge" no_fields

abbrev pub global_network_sdk : Kind
global_network_sdk = time "CreatedAt" (
    string "Description" (
      string "GlobalNetworkARN"
        (string "GlobalNetworkID" (string "State" (tags "Tags" no_fields)))))

abbrev pub link : Kind
link = time "CreatedAt" (
    string "Description"
      (string "GlobalNetworkID" (string "Provider" (tags "Tags" (string "Type" no_fields)))))

abbrev pub link_association : Kind
link_association = string "GlobalNetworkID" no_fields

abbrev pub location : Kind
location = string "Address" (string "Latitude" (string "Longitude" no_fields))

abbrev pub network_function_group : Kind
network_function_group = string "Name" no_fields

abbrev pub network_resource : Kind
network_resource = string "Definition" (
    time "DefinitionTimestamp"
      (string "ResourceID" (string "ResourceType" (tags "Tags" no_fields))))

abbrev pub network_resource_count : Kind
network_resource_count = string "ResourceType" no_fields

abbrev pub network_resource_summary : Kind
network_resource_summary = string "Definition" (string "NameTag" (string "ResourceType" no_fields))

abbrev pub network_route : Kind
network_route = string "DestinationCIDRBlock" (string "PrefixListID" no_fields)

abbrev pub network_route_destination : Kind
network_route_destination =
    string "NetworkFunctionGroupName"
      (string "ResourceID" (string "ResourceType" (string "SegmentName" no_fields)))

abbrev pub network_telemetry : Kind
network_telemetry = string "Address" (string "ResourceID" (string "ResourceType" no_fields))

abbrev pub path_component : Kind
path_component = string "DestinationCIDRBlock" no_fields

abbrev pub peering : Kind
peering = time "CreatedAt" (tags "Tags" no_fields)

abbrev pub prefix_list_association : Kind
prefix_list_association = string "PrefixListAlias" no_fields

abbrev pub proposed_network_function_group_change : Kind
proposed_network_function_group_change = string "NetworkFunctionGroupName" (tags "Tags" no_fields)

abbrev pub proposed_segment_change : Kind
proposed_segment_change = string "SegmentName" (tags "Tags" no_fields)

abbrev pub relationship : Kind
relationship = string "From" (string "To" no_fields)

abbrev pub route_analysis : Kind
route_analysis =
    string "GlobalNetworkID" (string "RouteAnalysisID" (time "StartTimestamp" no_fields))

abbrev pub routing_information_next_hop : Kind
routing_information_next_hop =
    string "CoreNetworkAttachmentID"
      (string "ResourceID" (string "ResourceType" (string "SegmentName" no_fields)))

abbrev pub site : Kind
site = time "CreatedAt" (string "Description" (string "GlobalNetworkID" (tags "Tags" no_fields)))

abbrev pub transit_gateway_connect_peer_association : Kind
transit_gateway_connect_peer_association = string "GlobalNetworkID" no_fields

abbrev pub transit_gateway_registration : Kind
transit_gateway_registration = string "GlobalNetworkID" no_fields

abbrev pub transit_gateway_registration_state_reason : Kind
transit_gateway_registration_state_reason = string "Message" no_fields

abbrev pub global_network_spec : Kind
global_network_spec = string "Description" (tags "Tags" no_fields)

-- `TypeMeta` holds strings alone, and is copied by value.
module _ (L : LibraryKinds) where
  abbrev pub global_network_status : Kind
  global_network_status = field "ACKResourceMetadata" (pointer L.resource_metadata) (
      field "Conditions" (slice (pointer L.condition))
        (time "CreatedAt" (string "GlobalNetworkID" (string "State" no_fields))))

  abbrev pub global_network : Kind
  global_network = field "TypeMeta" scalar (
      field "ObjectMeta" L.object_meta
        (field "Spec" global_network_spec (field "Status" global_network_status no_fields)))

  abbrev pub global_network_list : Kind
  global_network_list =
      field "TypeMeta" scalar
        (field "ListMeta" L.list_meta (field "Items" (slice global_network) no_fields))
